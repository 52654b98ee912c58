-- ===== src/Overlay/Sizes.antt =====
-- The MTU of an overlay link leaves room for its encapsulation.
use exnode.Base.{
  ℕ, ◌+◌, ◌≤◌, ◌<◌, true, false, ◌≡◌, refl, ap, ◌⊎◌, inl, inr, string_eq, ltb, arith, Bool-cases,
}
use exnode.Base.Int.{ℤ, pos, negsuc, is_pos, to_nat}
use exnode.Overlay.{Config, overhead, link_mtu, sized}

overhead_bounds : (c : Config) → (20 ≤ overhead c) × (overhead c ≤ 50)
unfolding overhead
overhead_bounds c = ground arith

sized_fits :
    (t : ℤ) (o : ℕ)
    → ((sized t o ≡ 0) × (to_nat t ≤ o)) ⊎ ((0 < sized t o) × (pos (sized t o + o) ≡ t))
sized_fits (pos t) o = elim (Bool-cases (ltb o t)) [
  | inl above ↦ rw above (inr (ground arith, ap pos (ground arith)))
  | inr under ↦ rw under (inl (refl, ground arith))
]
sized_fits (negsuc t) o = inl (refl, ground arith)

explicit : (z : ℤ) → is_pos z ≡ true → pos (to_nat z) ≡ z
explicit (pos n) h = refl
explicit (negsuc n) h = cc

-- An explicit MTU above 0 is taken as it is. Without one the link has the MTU that its tunnel leaves
-- over: it is 0, for the kernel's default, unless the tunnel's MTU is above the encapsulation's cost,
-- and then it and the cost, which is from 20 to 50 bytes, add up to the tunnel's MTU.
pub link_mtu_fits :
    (c : Config)
    → (((is_pos c.mtu ≡ true) × (pos (link_mtu c) ≡ c.mtu))
        ⊎ ((is_pos c.mtu ≡ false)
            × (((link_mtu c ≡ 0) × (to_nat c.tunnel_mtu ≤ overhead c))
                ⊎ ((0 < link_mtu c) × (pos (link_mtu c + overhead c) ≡ c.tunnel_mtu)))))
      × (20 ≤ overhead c)
      × (overhead c ≤ 50)
unfolding link_mtu
link_mtu_fits c = (
  elim (Bool-cases (is_pos c.mtu)) [
    | inl given ↦ rw given (inl (refl, explicit c.mtu given))
    | inr derived ↦ rw derived (inr (refl, sized_fits c.tunnel_mtu (overhead c)))
  ],
  (overhead_bounds c).0,
  (overhead_bounds c).1,
)
