-- ===== src/Engine/Singbox/Found.antt =====
-- The sing-box engine on the installer of singbox/singbox.go: where resolveBinLocked's program is from.
use mathlib.Core.Path.{subst}
use exnode.Base.{ℕ, String, Bool, Option, none, some, ◌⊎◌, inl, inr, ◌≡◌, refl, Option-cases}
use exnode.Host.{Host}
use exnode.Wg.Network.{Addresses, Links}
use exnode.Installer.{no_options}
use exnode.Installer.Platform.{Platform}
use exnode.Installer.Install.{install}
use exnode.Installer.Ensure.{Attempts, EnsureError, Ensured, usable, ensure}
use exnode.Installer.Ensure.Cooldown.{Call, Found, Nothing, Explained, ensure-Explained, target_of}
use exnode.Engine.Singbox.{Processes, Singbox, remembered, resolve_bin}

-- Where the variables of the installer's package and the clock are kept.
pub record Memory (S : Type 0) : Type 0 where
  pub recall : S → Attempts
  pub note : Attempts → S → S
  pub clock : S → ℕ

module _ (H : Host) (Q : Platform H.State) (M : Memory H.State) where
  abbrev given : Ensured H.State → Option String × H.State
  given e = (elim e.result [ inl error ↦ none | inr path ↦ some path ], M.note e.attempts e.after)

  ensured : String → H.State → Option String × H.State
  unfolding ensure
  ensured name s = given (ensure Q name no_options s (M.clock s) (M.recall s) s)

  -- The engine's processes, with the program found and installed by the package singbox.
  unfoldable pub installing : Processes H → Processes H
  unfolding ensured usable
  installing P = record P { usable = usable Q; ensure = ensured }

module _ (H : Host) (A : Addresses) (L : Links H A) (Q : Platform H.State) (M : Memory H.State)
    (P : Processes H) where
  -- The call of Ensure that the engine makes.
  abbrev pub request : Singbox → H.State → Call Q
  request e s = record {
    bin_path = e.cfg.bin_path;
    opts = no_options;
    before = s;
    now = M.clock s;
    locked = s;
  }

  abbrev pub Resolved : Singbox → H.State → Option String × Singbox × H.State → Type 0
  Resolved e s (none, e', s') = Nothing Q (request e s) × (e' ≡ e)
  Resolved e s (some path, e', s') =
      Found Q (request e s) path
      ⊎ (Nothing Q (request e s)
          × (path ≡ target_of no_options)
          × ((install Q (target_of no_options) no_options s).0 ≡ inr tt)
          × (e'.cfg.bin_path ≡ path))

  given-Resolved :
      (e : Singbox) (s : H.State) (tried : Bool) (result : EnsureError ⊎ String) (a : Attempts)
      (after : H.State)
      → let r : Ensured H.State = record {
        tried = tried;
        result = result;
        attempts = a;
        after = after;
      } in
        Explained Q (request e s) (M.recall s) r
        → Resolved e s (remembered H A L (installing H Q M P) (given H Q M r).0 e (M.note a after))
  unfolding remembered
  given-Resolved e s tried (inl error) a after h = (h.0, refl)
  given-Resolved e s tried (inr path) a after (inl found) = inl found
  given-Resolved e s tried (inr path) a after (inr (nothing, same, done, clear)) =
      inr (nothing, same, subst (λ p. (install Q p no_options s).0 ≡ inr tt) same done, refl)

  -- The program that the engine starts is one that was found usable, or the one that the installer
  -- has just put at its target, and that one is kept for the next start. Where there is none,
  -- nothing usable was found and the engine is unchanged.
  pub resolve_bin_explained :
      (e : Singbox) (s : H.State) → Resolved e s (resolve_bin H A L (installing H Q M P) e s)
  unfolding resolve_bin installing
  resolve_bin_explained e s = elim (Option-cases (usable Q e.cfg.bin_path s)) [
    | inr (path, there) ↦ rw (resolve_bin, there) (inl (inl there))
    | inl missing ↦
        rw (resolve_bin, missing)
          (let r = ensure Q e.cfg.bin_path no_options s (M.clock s) (M.recall s) s in
            given-Resolved e s r.tried r.result r.attempts r.after
              (ensure-Explained Q (request e s) (M.recall s)))
  ]
