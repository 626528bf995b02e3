-- ===== src/Common/Map.antt =====
-- `std::unordered_map` as an association list; a new key goes to the end.
use simple_ntpd.Common.{
  ℕ, ◌≡◌, ◌↔◌, refl, arith, Bool, true, Option, none, some, List, [], ◌∷◌, ◌==◌, ==_iff,
  if◌then◌else◌, if-both, if-true, Bool-cases, false_iff, suc, ◌∙◌, sym, ap, subst, ◌≢◌, ◌⊎◌, inl,
  inr, All, length, some-value,
}
use simple_ntpd.Common.Text.{Bytes, equal, equal_iff}

pub record Eq {ℓ} (K : Type ℓ) : Type ℓ where
  pub beq : K → K → Bool
  pub beq_iff : (a b : K) → (beq a b ≡ true) ↔ (a ≡ b)

instance abbrev pub nat_eq : Eq ℕ
nat_eq = record { beq = λ a b. a == b; beq_iff = ==_iff }

instance abbrev pub bytes_eq : Eq Bytes
bytes_eq = record { beq = equal; beq_iff = equal_iff }

module _ {ℓ κ} {K : Type ℓ} {V : Type κ} ⦃e : Eq K⦄ where
  unfoldable pub lookup : K → List (K × V) → Option V
  lookup k [] = none
  lookup k ((j, v) ∷ m) = if e.beq j k then some v else lookup k m

  unfoldable pub insert : K → V → List (K × V) → List (K × V)
  insert k v [] = (k, v) ∷ []
  insert k v ((j, w) ∷ m) = if e.beq j k then (j, v) ∷ m else (j, w) ∷ insert k v m

  pub lookup-insert :
      (k j : K) (v : V) (m : List (K × V))
      → lookup j (insert k v m) ≡ (if e.beq k j then some v else lookup j m)
  unfolding lookup insert
  lookup-insert k j v [] = refl
  lookup-insert k j v ((i, w) ∷ m) =
      ground (arith, e.beq_iff k j, e.beq_iff i k, e.beq_iff i j, lookup-insert k j v m)

  pub lookup-insert_self : (k : K) (v : V) (m : List (K × V)) → lookup k (insert k v m) ≡ some v
  lookup-insert_self k v m = rw (lookup-insert k k v m, (e.beq_iff k k).1 refl)

  pub lookup-insert_other :
      (k j : K) (v : V) (m : List (K × V)) → k ≢ j → lookup j (insert k v m) ≡ lookup j m
  lookup-insert_other k j v m d =
      let different = (false_iff (e.beq k j)).1 (λ h. d ((e.beq_iff k j).0 h)) in
      lookup-insert k j v m ∙ ap (λ b. if b then some v else lookup j m) different

  -- A new key makes the map one longer, an old one keeps its length.
  pub length-insert :
      (k : K) (v : V) (m : List (K × V))
      → ((lookup k m ≡ none) × (length (insert k v m) ≡ suc (length m)))
        ⊎ ((w : V) × (lookup k m ≡ some w) × (length (insert k v m) ≡ length m))
  unfolding insert lookup
  length-insert k v [] = inl (refl, refl)
  length-insert k v ((j, w) ∷ m) = elim (Bool-cases (e.beq j k)) [
    | inl same ↦ rw same (inr (w, refl, refl))
    | inr other ↦ rw other (elim (length-insert k v m) [
      | inl (absent, longer) ↦ inl (absent, ap suc longer)
      | inr (x, there, kept) ↦ inr (x, there, ap suc kept)
    ])
  ]

  pub insert-All :
      (P : K × V → Type 0) (k : K) (v : V) (m : List (K × V))
      → ((j : K) → P (j, v))
      → All P m
      → All P (insert k v m)
  unfolding insert
  insert-All P k v [] h a = (h k, tt)
  insert-All P k v ((j, w) ∷ m) h a =
      if-both (All P) (e.beq j k) ((j, v) ∷ m) ((j, w) ∷ insert k v m) (h j, a.1)
        (a.0, insert-All P k v m h a.1)

  pub lookup-All :
      (P : V → Type 0) (k : K) (m : List (K × V)) (v : V)
      → All (λ (x : K × V). P x.1) m
      → lookup k m ≡ some v
      → P v
  unfolding lookup
  lookup-All P k [] v a h = cc
  lookup-All P k ((j, w) ∷ m) v a h = elim (Bool-cases (e.beq j k)) [
    | inl same ↦ subst P (some-value (sym (if-true (e.beq j k) (some w) (lookup k m) same) ∙ h)) a.0
    | inr other ↦
        lookup-All P k m v a.1 (sym (ap (λ b. if b then some w else lookup k m) other) ∙ h)
  ]
