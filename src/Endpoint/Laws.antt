-- ===== src/Endpoint/Laws.antt =====
-- What endpoints are accepted, and how they are split.
use csi_driver_flexblock.Go.Inversion.{ok_inj, err_ne_ok, panic_ne_ok}
use Prim.Native.Char.{code}
use csi_driver_flexblock.Go.{ok}
use csi_driver_flexblock.Prelude.Text.{lower, has_prefix_fold, ◌<>◌, strip_prefix, cut}
use csi_driver_flexblock.Endpoint.{split_endpoint, parse_endpoint}
use csi_driver_flexblock.Prelude.{
  some_inj, refl, eq_iff, ◌∙◌, sym, false≢true, ◌||◌, ◌=ₛ◌, Option, ==_iff, ◌==◌, inr, inl,
  Bool-cases, Option-cases, none, ◌≢◌, ap, some, String, ◌≡◌,
}
use text.Mathlib.TextEquality.{Char-path}

strip_prefix_inv : (p s r : String) → strip_prefix p s ≡ some r → s ≡ p <> r
unfolding strip_prefix ◌<>◌
strip_prefix_inv String.[] s r h = some_inj s r h
strip_prefix_inv (String.◌∷◌ p ps) String.[] r h = cc
strip_prefix_inv (String.◌∷◌ p ps) (String.◌∷◌ c s) r h = elim (Bool-cases (code p == code c)) [
  | inl same ↦
      rw (Char-path p c ((==_iff (code p) (code c)).0 same))
        (ap (λ x. String.◌∷◌ c x) (strip_prefix_inv ps s r (rw same at h)))
  | inr differ ↦ absurd (none_ne_some (rw differ at h))
]
  where
    none_ne_some : none ≡ some r → ⊥
    none_ne_some e = cc

absurd_none :
    (p : String × String) {P : Type 0} → ◌≡◌ {A = Option (String × String)} none (some p) → P
absurd_none p e = cc

parts_equal :
    (x y a b : String)
    → ◌≡◌ {A = Option (String × String)} (some (x, y)) (some (a, b))
    → (x ≡ a) × (y ≡ b)
parts_equal x y a b e = (ap (λ p. p.0) (some_inj _ _ e), ap (λ p. p.1) (some_inj _ _ e))

-- The two parts of a text that is cut, with the separator between them, are the text.
pub cut_inv : (sep s a b : String) → cut sep s ≡ some (a, b) → s ≡ a <> sep <> b
unfolding cut ◌<>◌
cut_inv sep String.[] a b h = elim (Option-cases (strip_prefix sep "")) [
  | inl fails ↦ absurd_none (a, b) (rw fails at h)
  | inr (r, there) ↦
      let parts = parts_equal "" r a b (rw there at h) in
      rw (← parts.0) (rw (← parts.1) (strip_prefix_inv sep "" r there))
]
cut_inv sep (String.◌∷◌ c s) a b h = elim (Option-cases (strip_prefix sep (String.◌∷◌ c s))) [
  | inl fails ↦ elim (Option-cases (cut sep s)) [
    | inl nowhere ↦ absurd_none (a, b) (rw nowhere at (rw fails at h))
    | inr ((x, y), later) ↦
        let parts = parts_equal (String.◌∷◌ c x) y a b (rw later at (rw fails at h)) in
        rw (← parts.0) (rw (← parts.1) (ap (λ r. String.◌∷◌ c r) (cut_inv sep s x y later)))
  ]
  | inr (r, there) ↦
      let parts = parts_equal "" r a b (rw there at h) in
      rw (← parts.0) (rw (← parts.1) (strip_prefix_inv sep (String.◌∷◌ c s) r there))
]

accepted_parts :
    (proto addr p a : String)
    → split_endpoint (some (p, a)) ≡ ok (proto, addr)
    → (p ≡ proto) × (a ≡ addr) × (addr ≢ "")
accepted_parts proto addr p a h = elim (Bool-cases (a =ₛ "")) [
  | inl empty ↦ absurd (err_ne_ok (rw empty at h))
  | inr full ↦
      let e = ok_inj (rw full at h) in
      (
        ap (λ q. q.0) e,
        ap (λ q. q.1) e,
        λ nil. false≢true (sym full ∙ (eq_iff a "").1 (ap (λ q. q.1) e ∙ nil)),
      )
]

split_endpoint_inv :
    (ep proto addr : String) (o : Option (String × String))
    → cut "://" ep ≡ o
    → split_endpoint o ≡ ok (proto, addr)
    → (ep ≡ proto <> "://" <> addr) × (addr ≢ "")
split_endpoint_inv ep proto addr none nowhere h = absurd (panic_ne_ok h)
split_endpoint_inv ep proto addr (some (p, a)) found h =
    let parts = accepted_parts proto addr p a h in
    (rw (← parts.0) (rw (← parts.1) (cut_inv "://" ep p a found)), parts.2)

-- An endpoint that is accepted is the protocol, `://` and the address, and the address is not empty.
pub parse_endpoint_inv :
    (ep proto addr : String)
    → parse_endpoint ep ≡ ok (proto, addr)
    → (ep ≡ proto <> "://" <> addr) × (addr ≢ "")
unfolding parse_endpoint
parse_endpoint_inv ep proto addr h =
    elim (Bool-cases (has_prefix_fold ep "unix://" || has_prefix_fold ep "tcp://")) [
      | inl known ↦ split_endpoint_inv ep proto addr (cut "://" ep) refl (rw known at h)
      | inr unknown ↦ absurd (err_ne_ok (rw unknown at h))
    ]

-- An endpoint that is written as `unix://` or `tcp://` and an address that is not empty is split into
-- these two again.
pub parse_endpoint-print :
    (addr : String)
    → addr ≢ ""
    → (parse_endpoint ("unix://" <> addr) ≡ ok ("unix", addr))
      × (parse_endpoint ("tcp://" <> addr) ≡ ok ("tcp", addr))
unfolding parse_endpoint cut strip_prefix has_prefix_fold lower ◌<>◌
parse_endpoint-print addr full = elim (Bool-cases (addr =ₛ "")) [
  | inl empty ↦ absurd (full ((eq_iff addr "").0 empty))
  | inr other ↦ (rw other refl, rw other refl)
]
