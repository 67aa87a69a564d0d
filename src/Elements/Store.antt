-- ===== src/Elements/Store.antt =====
-- Reading an element after another was written.
use k2hash.Base.{ℕ, ◌≡◌, ◌≢◌, refl, ==_refl, ne→==, ◌==◌, ==→eq, Bool-cases, inl, inr}
use k2hash.Elements.{Element, Store, put_element}

pub put_same : (h : Store) (p : ℕ) (e : Element) → put_element h p e p ≡ e
unfolding put_element
put_same h p e = rw (==_refl p) refl

pub put_other : (h : Store) (p q : ℕ) (e : Element) → q ≢ p → put_element h p e q ≡ h q
unfolding put_element
put_other h p q e other = rw (ne→== q p (λ f. absurd (other f))) refl

-- What the new element has as the old one had it, the whole store has.
pub put_keeps :
    (f : Element → ℕ) (h : Store) (p : ℕ) (e : Element)
    → f e ≡ f (h p)
    → (q : ℕ) → f (put_element h p e q) ≡ f (h q)
unfolding put_element
put_keeps f h p e same q = elim (Bool-cases (q == p)) [
  | inl here ↦ let at : q ≡ p = ==→eq q p here in rw (here, at) same
  | inr other ↦ rw other refl
]
