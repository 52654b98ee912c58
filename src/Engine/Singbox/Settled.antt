-- ===== src/Engine/Singbox/Settled.antt =====
-- A sing-box that runs the desired configuration is left alone.
use mathlib.Core.Path.{subst}
use exnode.Base.{
  ℕ, String, Bool, true, false, ◌&&◌, ◌||◌, not, ◌≡◌, refl, sym, ap, ◌∙◌, List, Option, none, some,
  if◌then◌else◌, ◌==◌, string_eq, beq_refl, Bool-cases, Option-cases, inl, inr, if_true, if_false,
}
use exnode.Host.{Host}
use exnode.Conf.{SingboxConfig}
use exnode.Wg.{Interface}
use exnode.Wg.Network.{Addresses, Links}
use exnode.Engine.Rendered.{render}
use exnode.Engine.Singbox.{
  Processes, Singbox, stop, started, remembered, resolve_bin, resolved, restart, applied,
  write_config, applied_text, apply,
}

module _ (H : Host) (A : Addresses) (L : Links H A) (P : Processes H) where
  -- What a restart keeps of the configuration, and that a restart that went well leaves a process.
  abbrev Restarted : Singbox → Bool × Singbox × H.State → Type 0
  Restarted e (ok, e', s') =
      (e'.cfg.system ≡ e.cfg.system)
      × (e'.cfg.log_level ≡ e.cfg.log_level)
      × ((not ok || e'.running) ≡ true)

  started-Restarted :
      (e : Singbox) (pid : Option ℕ) (s : H.State) → Restarted e (started H A L P e pid s)
  unfolding started
  started-Restarted e none s = (refl, refl, refl)
  started-Restarted e (some pid) s = (refl, refl, refl)

  abbrev Alike : SingboxConfig → SingboxConfig → Type 0
  Alike c d = (c.system ≡ d.system) × (c.log_level ≡ d.log_level)

  resolved-Restarted :
      (e : Singbox) (r : Option String × Singbox × H.State)
      → Alike r.1.cfg e.cfg
      → Restarted e (resolved H A L P r)
  unfolding resolved
  resolved-Restarted e (none, e', s) (system, level) = (system, level, refl)
  resolved-Restarted e (some path, e', s) (system, level) =
      let (system', level', runs) = started-Restarted e' (P.start path e'.cfg.config_path s).0 _ in
      (system' ∙ system, level' ∙ level, runs)

  remembered-Alike :
      (path : Option String) (e : Singbox) (s : H.State)
      → Alike (remembered H A L P path e s).1.cfg e.cfg
  unfolding remembered
  remembered-Alike none e s = (refl, refl)
  remembered-Alike (some path) e s = (refl, refl)

  resolve_bin-Alike : (e : Singbox) (s : H.State) → Alike (resolve_bin H A L P e s).1.cfg e.cfg
  unfolding resolve_bin
  resolve_bin-Alike e s = elim (Option-cases (P.usable e.cfg.bin_path s)) [
    | inl missing ↦ rw (resolve_bin, missing) (remembered-Alike _ e _)
    | inr (path, there) ↦ rw (resolve_bin, there) (refl, refl)
  ]

  stop-Alike : (e : Singbox) (s : H.State) → Alike (stop H A L P e s).0.cfg e.cfg
  unfolding stop
  stop-Alike e s = elim (Option-cases e.process) [
    | inl idle ↦ rw (stop, idle) (refl, refl)
    | inr (pid, busy) ↦ rw (stop, busy) (refl, refl)
  ]

  restart-Restarted : (e : Singbox) (s : H.State) → Restarted e (restart H A L P e s)
  unfolding restart
  restart-Restarted e s =
      let (e', s') = stop H A L P e s in
      let (system, level) = resolve_bin-Alike e' s' in
      let (system', level') = stop-Alike e s in
      resolved-Restarted e (resolve_bin H A L P e' s') (system ∙ system', level ∙ level')

  render_same :
      (c d : SingboxConfig) (desired : List Interface)
      → c.system ≡ d.system
      → c.log_level ≡ d.log_level
      → render c desired ≡ render d desired
  unfolding render
  render_same c d desired h k = rw (h, k)

  unmarshalled :
      (desired : List Interface) (e : Singbox) (s : H.State)
      → P.marshal (render e.cfg desired) ≡ none
      → apply H A L P desired e s ≡ (false, e, s)
  unfolding apply applied_text
  unmarshalled desired e s bad = ap (λ t. applied_text H A L P desired t e s) bad

  rewritten :
      (desired : List Interface) (text : String) (e : Singbox) (s : H.State)
      → P.marshal (render e.cfg desired) ≡ some text
      → (text == e.last_config && e.running) ≡ false
      → let (written, s') = write_config H A L P e.cfg.config_path text s in
        apply H A L P desired e s
        ≡ (if written then applied H A L P desired text (restart H A L P e s') else (false, e, s'))
  unfolding apply applied_text
  rewritten desired text e s made other =
      ap (λ t. applied_text H A L P desired t e s) made ∙ if_false _ _ _ other

  quiet :
      (desired : List Interface) (text : String) (e : Singbox) (s : H.State)
      → P.marshal (render e.cfg desired) ≡ some text
      → (text == e.last_config && e.running) ≡ true
      → apply H A L P desired e s ≡ (true, e, s)
  unfolding apply applied_text
  quiet desired text e s made same =
      ap (λ t. applied_text H A L P desired t e s) made ∙ if_true _ _ _ same

  applied_running :
      (desired : List Interface) (text : String) (e : Singbox) (r : Bool × Singbox × H.State)
      → P.marshal (render e.cfg desired) ≡ some text
      → Restarted e r
      → (applied H A L P desired text r).0 ≡ true
      → (P.marshal (render (applied H A L P desired text r).1.cfg desired) ≡ some text)
        × ((text == (applied H A L P desired text r).1.last_config
              && (applied H A L P desired text r).1.running)
            ≡ true)
  unfolding applied
  applied_running desired text e (true, e', s) made (system, level, runs) h =
      (ap P.marshal (render_same e'.cfg e.cfg desired system level) ∙ made, rw (beq_refl text) runs)
  applied_running desired text e (false, e', s) made kept h = cc

  -- Once Apply has gone well, applying the same interfaces again does nothing: sing-box is not
  -- restarted, and neither the engine nor the machine changes.
  pub apply_settles :
      (desired : List Interface) (e : Singbox) (s : H.State)
      → (apply H A L P desired e s).0 ≡ true
      → let (ok, e', s') = apply H A L P desired e s in apply H A L P desired e' s' ≡ (true, e', s')
  apply_settles desired e s h = elim (Option-cases (P.marshal (render e.cfg desired))) [
    | inl bad ↦ cc (h, ap (λ (r : Bool × Singbox × H.State). r.0) (unmarshalled desired e s bad))
    | inr (text, made) ↦ elim (Bool-cases (text == e.last_config && e.running)) [
      | inl same ↦
          let q = quiet desired text e s made same in
          subst (λ (r : Bool × Singbox × H.State). apply H A L P desired r.1 r.2 ≡ (true, r.1, r.2))
            (sym q) q
      | inr other ↦ elim (Bool-cases (write_config H A L P e.cfg.config_path text s).0) [
        | inl wrote ↦
            let s₁ = (write_config H A L P e.cfg.config_path text s).1 in
            let r = applied H A L P desired text (restart H A L P e s₁) in
            let done = rewritten desired text e s made other ∙ if_true _ _ _ wrote in
            let ok = sym (ap (λ (r : Bool × Singbox × H.State). r.0) done) ∙ h in
            let (made', same) =
              applied_running desired text e (restart H A L P e s₁) made (restart-Restarted e s₁)
                ok in
            subst
              (λ (r : Bool × Singbox × H.State). apply H A L P desired r.1 r.2 ≡ (true, r.1, r.2))
              (sym done) (quiet desired text r.1 r.2 made' same)
        | inr failed ↦ cc (
          h,
          ap (λ (r : Bool × Singbox × H.State). r.0)
              (rewritten desired text e s made other ∙ if_false _ _ _ failed),
        )
      ]
    ]
  ]
