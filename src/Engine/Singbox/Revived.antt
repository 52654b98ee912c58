-- ===== src/Engine/Singbox/Revived.antt =====
-- The process of sing-box: what the engine knows of it, and that one that has ended is started again.
use mathlib.Core.Path.{subst}
use exnode.Base.{
  ℕ, String, Bool, true, false, ◌&&◌, ◌||◌, not, ◌≡◌, refl, sym, ap, ◌∙◌, List, Option, none, some,
  if◌then◌else◌, ◌==◌, nat_eq, string_eq, eq→beq, some_eq, if_true, if_false, Bool-cases,
  Option-cases, inl, inr, arith,
}
use exnode.Text.{is_nil}
use exnode.Host.{Host}
use exnode.Conf.{SingboxConfig}
use exnode.Wg.{Interface}
use exnode.Wg.Network.{Addresses, Links}
use exnode.Engine.Rendered.{render}
use exnode.Engine.Singbox.{
  with_defaults, Processes, Singbox, begin, stop, started, remembered, resolve_bin, resolved,
  restart, exited, applied, write_config, applied_text, apply, close,
}

module _ (H : Host) (A : Addresses) (L : Links H A) (P : Processes H) where
  -- The engines that come about: a new one, and what Apply, Close and the end of a process make of
  -- one, on whatever machine.
  pub data Reached : Singbox → Type 0 where
    new : (cfg : SingboxConfig) → Reached (begin cfg)
    applying :
        {e : Singbox} (desired : List Interface) (s : H.State)
        → Reached e
        → Reached (apply H A L P desired e s).1
    closing : {e : Singbox} (s : H.State) → Reached e → Reached (close H A L P e s).0
    ending : {e : Singbox} (pid : ℕ) → Reached e → Reached (exited pid e)

  abbrev pub has_process : Singbox → Bool
  has_process e = elim e.process [ none ↦ false | some pid ↦ true ]

  -- A running engine has a process, and the file and the level of logs are named.
  abbrev pub IsSound : Singbox → Type 0
  IsSound e =
      ((not e.running || has_process e) ≡ true)
      × (is_nil e.cfg.config_path ≡ false)
      × (is_nil e.cfg.log_level ≡ false)

  started-IsSound :
      (e : Singbox) (pid : Option ℕ) (s : H.State) → IsSound e → IsSound (started H A L P e pid s).1
  unfolding started
  started-IsSound e none s h = h
  started-IsSound e (some pid) s (runs, path, level) = (refl, path, level)

  resolved-IsSound :
      (r : Option String × Singbox × H.State) → IsSound r.1 → IsSound (resolved H A L P r).1
  unfolding resolved
  resolved-IsSound (none, e, s) h = h
  resolved-IsSound (some path, e, s) h = started-IsSound e _ _ h

  remembered-IsSound :
      (path : Option String) (e : Singbox) (s : H.State)
      → IsSound e
      → IsSound (remembered H A L P path e s).1
  unfolding remembered
  remembered-IsSound none e s h = h
  remembered-IsSound (some path) e s h = h

  resolve_bin-IsSound :
      (e : Singbox) (s : H.State) → IsSound e → IsSound (resolve_bin H A L P e s).1
  unfolding resolve_bin
  resolve_bin-IsSound e s h = elim (Option-cases (P.usable e.cfg.bin_path s)) [
    | inl missing ↦ rw (resolve_bin, missing) (remembered-IsSound _ e _ h)
    | inr (path, there) ↦ rw (resolve_bin, there) h
  ]

  stop-IsSound : (e : Singbox) (s : H.State) → IsSound e → IsSound (stop H A L P e s).0
  unfolding stop
  stop-IsSound e s (runs, path, level) = elim (Option-cases e.process) [
    | inl idle ↦ rw (stop, idle) (runs, path, level)
    | inr (pid, busy) ↦ rw (stop, busy) (refl, path, level)
  ]

  restart-IsSound : (e : Singbox) (s : H.State) → IsSound e → IsSound (restart H A L P e s).1
  unfolding restart
  restart-IsSound e s h =
      let (e', s') = stop H A L P e s in
      resolved-IsSound (resolve_bin H A L P e' s') (resolve_bin-IsSound e' s' (stop-IsSound e s h))

  applied-IsSound :
      (desired : List Interface) (text : String) (r : Bool × Singbox × H.State)
      → IsSound r.1
      → IsSound (applied H A L P desired text r).1
  unfolding applied
  applied-IsSound desired text (true, e, s) h = h
  applied-IsSound desired text (false, e, s) h = h

  applied_text-IsSound :
      (desired : List Interface) (text : Option String) (e : Singbox) (s : H.State)
      → IsSound e
      → IsSound (applied_text H A L P desired text e s).1
  unfolding applied_text
  applied_text-IsSound desired none e s h = h
  applied_text-IsSound desired (some text) e s h =
      elim (Bool-cases (text == e.last_config && e.running)) [
        | inl same ↦ rw same h
        | inr other ↦
            rw other (elim (Bool-cases (write_config H A L P e.cfg.config_path text s).0) [
              | inl wrote ↦ rw wrote (applied-IsSound desired text _ (restart-IsSound e _ h))
              | inr failed ↦ rw failed h
            ])
      ]

  exited-IsSound : (pid : ℕ) (e : Singbox) → IsSound e → IsSound (exited pid e)
  unfolding exited
  exited-IsSound pid e (runs, path, level) = elim (Option-cases e.process) [
    | inl idle ↦ rw (exited, idle) (runs, path, level)
    | inr (current, busy) ↦
        rw (exited, busy)
          (elim (Bool-cases (current == pid)) [
            | inl same ↦ rw same (refl, path, level)
            | inr other ↦ rw other (runs, path, level)
          ])
  ]

  named :
      (text default : String)
      → is_nil default ≡ false
      → is_nil (if is_nil text then default else text) ≡ false
  named text default h = elim (Bool-cases (is_nil text)) [
    | inl empty ↦ rw empty h
    | inr full ↦ rw full full
  ]

  begin-IsSound : (cfg : SingboxConfig) → IsSound (begin cfg)
  unfolding begin with_defaults
  begin-IsSound cfg = (refl, named cfg.config_path _ refl, named cfg.log_level _ refl)

  -- However Apply, Close and the ends of processes follow one another, an engine that takes itself
  -- for running has a process, and the file of its configuration and the level of its logs are not
  -- empty.
  pub Reached-IsSound : {e : Singbox} → Reached e → IsSound e
  unfolding apply close
  Reached-IsSound (new cfg) = begin-IsSound cfg
  Reached-IsSound (applying {e} desired s r) =
      applied_text-IsSound desired _ e s (Reached-IsSound r)
  Reached-IsSound (closing {e} s r) = stop-IsSound e _ (Reached-IsSound r)
  Reached-IsSound (ending {e} pid r) = exited-IsSound pid e (Reached-IsSound r)

  module _ (desired : List Interface) (text path : String) (pid pid' : ℕ) (e : Singbox)
      (made : P.marshal (render e.cfg desired) ≡ some text)
      (writes : (s : H.State) → (write_config H A L P e.cfg.config_path text s).0 ≡ true)
      (there : (s : H.State) → P.usable e.cfg.bin_path s ≡ some path)
      (starts : (s : H.State) → (P.start path e.cfg.config_path s).0 ≡ some pid') where
    abbrev pub Up : Bool × Singbox × H.State → Type 0
    Up (ok, e', s) = (ok ≡ true) × (e'.process ≡ some pid') × (e'.running ≡ true)

    abbrev pub dead : Singbox
    dead = record e { running = false }

    noted :
        (o : Option ℕ)
        → o ≡ some pid
        → (elim o [ none ↦ e | some current ↦ if current == pid then dead else e ]) ≡ dead
    noted none h = cc
    noted (some current) h = if_true _ _ _ (eq→beq current pid (some_eq h))

    exited_lem : e.process ≡ some pid → exited pid e ≡ dead
    unfolding exited
    exited_lem h = noted e.process h

    started-Up :
        (e' : Singbox) (o : Option ℕ) (s : H.State) → o ≡ some pid' → Up (started H A L P e' o s)
    unfolding started
    started-Up e' none s h = cc
    started-Up e' (some p) s h = (refl, h, refl)

    found :
        (e' : Singbox) (s : H.State)
        → P.usable e'.cfg.bin_path s ≡ some path
        → resolve_bin H A L P e' s ≡ (some path, e', s)
    unfolding resolve_bin
    found e' s h = rw (resolve_bin, h) refl

    resolved-Up :
        (e' : Singbox) (s : H.State)
        → e'.cfg ≡ e.cfg
        → Up (resolved H A L P (resolve_bin H A L P e' s))
    unfolding resolved
    resolved-Up e' s same =
        let usable = ap (λ (c : SingboxConfig). P.usable c.bin_path s) same ∙ there s in
        let start = ap (λ (c : SingboxConfig). (P.start path c.config_path s).0) same ∙ starts s in
        subst (λ r. Up (resolved H A L P r)) (sym (found e' s usable)) (started-Up e' _ _ start)

    stopped : (s : H.State) → (stop H A L P dead s).0.cfg ≡ e.cfg
    unfolding stop
    stopped s = elim (Option-cases e.process) [
      | inl idle ↦ rw (stop, idle)
      | inr (current, busy) ↦ rw (stop, busy)
    ]

    restart-Up : (s : H.State) → Up (restart H A L P dead s)
    unfolding restart
    restart-Up s = resolved-Up (stop H A L P dead s).0 (stop H A L P dead s).1 (stopped s)

    applied-Up : (r : Bool × Singbox × H.State) → Up r → Up (applied H A L P desired text r)
    unfolding applied
    applied-Up (true, e', s) h = h
    applied-Up (false, e', s) h = h

    -- After the process of an engine has ended, the next Apply starts another one, also where the
    -- interfaces are the same as before: it goes well, and the engine runs the new process. This
    -- holds where the configuration can be encoded and written, and the program is found and starts.
    pub exited_revives :
        (s : H.State)
        → e.process ≡ some pid
        → let (ok, e', s') = apply H A L P desired (exited pid e) s in
          (ok ≡ true) × (e'.process ≡ some pid') × (e'.running ≡ true)
    unfolding apply applied_text
    exited_revives s h =
        let r = restart H A L P dead (write_config H A L P e.cfg.config_path text s).1 in
        let idle : (text == e.last_config && false) ≡ false = ground arith in
        let run : apply H A L P desired dead s ≡ applied H A L P desired text r =
          ap (λ t. applied_text H A L P desired t dead s) made
          ∙ if_false _ _ _ idle
          ∙ if_true _ _ _ (writes s) in
        subst (λ x. Up (apply H A L P desired x s)) (sym (exited_lem h))
          (subst Up (sym run)
            (applied-Up r (restart-Up (write_config H A L P e.cfg.config_path text s).1)))
