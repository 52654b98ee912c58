-- ===== src/Host/Loops.antt =====
-- Go's `for … range` over a list, with the machine's state passed along.
use exnode.Base.{
  Bool, true, false, ◌&&◌, ◌≡◌, refl, ◌∙◌, List, [], ◌∷◌, ◌++◌, if◌then◌else◌, all, Bool-cases, inl,
  inr, &&_true,
}

module _ {S A : Type 0} where
  -- A body with no result.
  unfoldable pub each : (A → S → S) → List A → S → S
  each f [] s = s
  each f (x ∷ xs) s = each f xs (f x s)

  -- A body that may fail; the loop returns at the first failure.
  unfoldable pub each_ok : (A → S → Bool × S) → List A → S → Bool × S
  each_ok f [] s = (true, s)
  each_ok f (x ∷ xs) s =
      let (ok, s') = f x s in let rest = each_ok f xs s' in if ok then rest else (false, s')

  -- A body that may fail; every element is visited, and the result says whether all went well.
  unfoldable pub each_all : (A → S → Bool × S) → List A → S → Bool × S
  each_all f [] s = (true, s)
  each_all f (x ∷ xs) s =
      let (ok, s') = f x s in let (rest, s'') = each_all f xs s' in (ok && rest, s'')

  -- A property that the body keeps is kept by the loop.
  pub each_inv {ℓ} :
      (P : S → Type ℓ) (f : A → S → S)
      → ((x : A) (s : S) → P s → P (f x s))
      → (xs : List A) (s : S) → P s
      → P (each f xs s)
  unfolding each
  each_inv P f keeps [] s h = h
  each_inv P f keeps (x ∷ xs) s h = each_inv P f keeps xs (f x s) (keeps x s h)

  pub each-append :
      (f : A → S → S) (xs ys : List A) (s : S) → each f (xs ++ ys) s ≡ each f ys (each f xs s)
  unfolding each
  each-append f [] ys s = refl
  each-append f (x ∷ xs) ys s = each-append f xs ys (f x s)

-- A loop that leaves a view of the machine alone when its body does.
module _ {S A : Type 0} (view : S → Bool) where
  pub each_same :
      (ok : A → Bool) (f : A → S → S)
      → ((x : A) → ok x ≡ true → (s : S) → view (f x s) ≡ view s)
      → (xs : List A) → all ok xs ≡ true
      → (s : S) → view (each f xs s) ≡ view s
  unfolding each
  each_same ok f same [] h s = refl
  each_same ok f same (x ∷ xs) h s =
      let (first, rest) = &&_true (ok x) (all ok xs) h in
      each_same ok f same xs rest (f x s) ∙ same x first s

  pub always_same :
      (f : A → S → S)
      → ((x : A) (s : S) → view (f x s) ≡ view s)
      → (xs : List A) (s : S) → view (each f xs s) ≡ view s
  unfolding each
  always_same f same [] s = refl
  always_same f same (x ∷ xs) s = always_same f same xs (f x s) ∙ same x s

  pub each_ok_same :
      (f : A → S → Bool × S)
      → ((x : A) (s : S) → view (f x s).1 ≡ view s)
      → (xs : List A) (s : S) → view (each_ok f xs s).1 ≡ view s
  unfolding each_ok
  each_ok_same f same [] s = refl
  each_ok_same f same (x ∷ xs) s = elim (Bool-cases (f x s).0) [
    | inl fine ↦ rw fine (each_ok_same f same xs (f x s).1 ∙ same x s)
    | inr failed ↦ rw failed (same x s)
  ]

  pub each_all_same :
      (f : A → S → Bool × S)
      → ((x : A) (s : S) → view (f x s).1 ≡ view s)
      → (xs : List A) (s : S) → view (each_all f xs s).1 ≡ view s
  unfolding each_all
  each_all_same f same [] s = refl
  each_all_same f same (x ∷ xs) s = each_all_same f same xs (f x s).1 ∙ same x s
