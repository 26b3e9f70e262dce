-- ===== src/Common/Map.antt =====
-- A hash map as an association list. Every theorem holds for each order of the list, so the order
-- in which the map is walked is left open, as the source leaves it.
use Prim.Native.Nat.{◌+◌, ◌≤◌}
use mathlib.Core.Path.{◌≡◌, refl, sym, ◌∙◌}
use mathlib.Core.Logic.{◌≢◌, ite, if_pos, if_neg}
use mathlib.Core.Bool.{Bool, true, false}
use mathlib.Core.List.{List, [], ◌∷◌}
use mathlib.Core.Option.{Option, none, some}
use native.Mathlib.Omega.{arith}
use p2p_observer.Common.Logic.{if◌then◌else◌, is_some}
use p2p_observer.Common.Lists.{length, All, All-imp}

some≢none {ℓ} : {A : Type ℓ} (a : A) → some a ≡ none → ⊥
some≢none a e = cc

module _ {ℓ} {K V : Type ℓ} (dec : Discrete K) where
  unfoldable pub get : K → List (K × V) → Option V
  get k [] = none
  get k ((j, v) ∷ m) = ite (dec j k) (some v) (get k m)

  unfoldable pub insert : K → V → List (K × V) → List (K × V)
  insert k v [] = (k, v) ∷ []
  insert k v ((j, w) ∷ m) = ite (dec j k) ((k, v) ∷ m) ((j, w) ∷ insert k v m)

  unfoldable pub remove : K → List (K × V) → List (K × V)
  remove k [] = []
  remove k ((j, w) ∷ m) = ite (dec j k) (remove k m) ((j, w) ∷ remove k m)

  -- `if let Some(v) = m.get_mut(k) { *v = f(v) }`.
  unfoldable pub modify : K → (V → V) → List (K × V) → List (K × V)
  modify k f [] = []
  modify k f ((j, w) ∷ m) = ite (dec j k) ((j, f w) ∷ m) ((j, w) ∷ modify k f m)

  -- `m.retain(|k, v| keep(k, v))`.
  unfoldable pub retain : (K → V → Bool) → List (K × V) → List (K × V)
  retain keep [] = []
  retain keep ((j, w) ∷ m) = if keep j w then (j, w) ∷ retain keep m else retain keep m

  abbrev pub has : K → List (K × V) → Bool
  has k m = is_some (get k m)

  -- No key stands twice.
  abbrev pub IsMap : List (K × V) → Type ℓ
  IsMap [] = Unit
  IsMap ((k, v) ∷ m) = (get k m ≡ none) × IsMap m

  pub get-insert :
      (k j : K) (v : V) (m : List (K × V)) → get j (insert k v m) ≡ ite (dec k j) (some v) (get j m)
  unfolding get insert
  get-insert k j v [] = refl
  get-insert k j v ((i, w) ∷ m) = ground (arith, get-insert k j v m)

  pub get-remove : (k j : K) (m : List (K × V)) → get j (remove k m) ≡ ite (dec k j) none (get j m)
  unfolding get remove
  get-remove k j [] = ground arith
  get-remove k j ((i, w) ∷ m) = ground (arith, get-remove k j m)

  pub get-modify_ne :
      (k j : K) (f : V → V) (m : List (K × V)) → k ≢ j → get j (modify k f m) ≡ get j m
  unfolding get modify
  get-modify_ne k j f [] h = refl
  get-modify_ne k j f ((i, w) ∷ m) h = ground (arith, get-modify_ne k j f m)

  pub get-modify-some :
      (k : K) (f : V → V) (m : List (K × V)) (v : V)
      → get k m ≡ some v
      → get k (modify k f m) ≡ some (f v)
  unfolding get modify
  get-modify-some k f [] v h = cc
  get-modify-some k f ((i, w) ∷ m) v h = ground (arith, get-modify-some k f m v)

  pub get-modify-none :
      (k j : K) (f : V → V) (m : List (K × V)) → get j m ≡ none → get j (modify k f m) ≡ none
  unfolding get modify
  get-modify-none k j f [] h = refl
  get-modify-none k j f ((i, w) ∷ m) h = ground (arith, get-modify-none k j f m)

  pub get-retain-none :
      (j : K) (keep : K → V → Bool) (m : List (K × V))
      → get j m ≡ none
      → get j (retain keep m) ≡ none
  unfolding get retain
  get-retain-none j keep [] h = refl
  get-retain-none j keep ((i, w) ∷ m) h = ground (arith, get-retain-none j keep m)

  pub length-insert-le : (k : K) (v : V) (m : List (K × V)) → length (insert k v m) ≤ length m + 1
  unfolding insert
  length-insert-le k v [] = omega arith
  length-insert-le k v ((i, w) ∷ m) = ground (arith, length-insert-le k v m)

  pub length-insert_new :
      (k : K) (v : V) (m : List (K × V)) → get k m ≡ none → length (insert k v m) ≡ length m + 1
  unfolding get insert
  length-insert_new k v [] h = omega arith
  length-insert_new k v ((i, w) ∷ m) h = ground (arith, length-insert_new k v m)

  pub length-modify : (k : K) (f : V → V) (m : List (K × V)) → length (modify k f m) ≡ length m
  unfolding modify
  length-modify k f [] = refl
  length-modify k f ((i, w) ∷ m) = ground (arith, length-modify k f m)

  pub length-remove-le : (k : K) (m : List (K × V)) → length (remove k m) ≤ length m
  unfolding remove
  length-remove-le k [] = omega arith
  length-remove-le k ((i, w) ∷ m) = ground (arith, length-remove-le k m)

  pub length-retain-le :
      (keep : K → V → Bool) (m : List (K × V)) → length (retain keep m) ≤ length m
  unfolding retain
  length-retain-le keep [] = omega arith
  length-retain-le keep ((i, w) ∷ m) = ground (arith, length-retain-le keep m)

  pub insert-IsMap : (k : K) (v : V) (m : List (K × V)) → IsMap m → IsMap (insert k v m)
  unfolding get insert
  insert-IsMap k v [] h = (refl, tt)
  insert-IsMap k v ((i, w) ∷ m) h = ground (arith, insert-IsMap k v m, get-insert k i v m)

  pub remove-IsMap : (k : K) (m : List (K × V)) → IsMap m → IsMap (remove k m)
  unfolding remove
  remove-IsMap k [] h = tt
  remove-IsMap k ((i, w) ∷ m) h = ground (arith, remove-IsMap k m, get-remove k i m)

  pub modify-IsMap : (k : K) (f : V → V) (m : List (K × V)) → IsMap m → IsMap (modify k f m)
  unfolding modify
  modify-IsMap k f [] h = tt
  modify-IsMap k f ((i, w) ∷ m) h = ground (arith, modify-IsMap k f m, get-modify-none k i f m)

  pub retain-IsMap : (keep : K → V → Bool) (m : List (K × V)) → IsMap m → IsMap (retain keep m)
  unfolding retain
  retain-IsMap keep [] h = tt
  retain-IsMap keep ((i, w) ∷ m) h = ground (arith, retain-IsMap keep m, get-retain-none i keep m)

  pub get-retain-some :
      (j : K) (keep : K → V → Bool) (m : List (K × V)) (v : V)
      → IsMap m
      → get j m ≡ some v
      → get j (retain keep m) ≡ (if keep j v then some v else none)
  unfolding get retain
  get-retain-some j keep [] v d h = cc
  get-retain-some j keep ((i, w) ∷ m) v d h =
      ground (arith, get-retain-some j keep m v d.1, get-retain-none j keep m)

  -- What a walk over the map meets is what a lookup finds.
  pub get_members : (m : List (K × V)) → IsMap m → All (λ (p : K × V). get p.0 m ≡ some p.1) m
  unfolding get
  get_members [] d = tt
  get_members ((j, w) ∷ m) d = (
    if_pos (dec j j) refl (some w) (get j m),
    All-imp (λ (p : K × V). get p.0 m ≡ some p.1) (λ (p : K × V). get p.0 ((j, w) ∷ m) ≡ some p.1) m
        (λ p e. member_tail p.0 p.1 e) (get_members m d.1),
  )
    where
      member_tail : (k : K) (v : V) → get k m ≡ some v → get k ((j, w) ∷ m) ≡ some v
      member_tail k v e = elim (dec j k) [
        | yes p ↦ absurd (some≢none v (sym e ∙ rw (← p) d.0))
        | no p ↦ if_neg (dec j k) p (some w) (get k m) ∙ e
      ]

  pub remove_absent : (k : K) (m : List (K × V)) → get k m ≡ none → remove k m ≡ m
  unfolding get remove
  remove_absent k [] h = refl
  remove_absent k ((j, w) ∷ m) h = ground (arith, remove_absent k m)

  pub length-remove :
      (k : K) (m : List (K × V))
      → IsMap m
      → length (remove k m) + (if has k m then 1 else 0) ≡ length m
  unfolding get remove
  length-remove k [] d = omega arith
  length-remove k ((j, w) ∷ m) d = ground (arith, length-remove k m d.1, remove_absent k m)

  -- The keys are not in the list.
  pub get-remove_ne : (k j : K) (m : List (K × V)) → k ≢ j → get j (remove k m) ≡ get j m
  get-remove_ne k j m h = get-remove k j m ∙ if_neg (dec k j) h none (get j m)

  pub if-IsMap : (b : Bool) (m n : List (K × V)) → IsMap m → IsMap n → IsMap (if b then m else n)
  if-IsMap true m n h k = h
  if-IsMap false m n h k = k
