-- ===== src/Prelude/Dict.antt =====
-- Python's `dict`: an association list with the keys in the order of their first insertion.
use Prim.Native.Nat.{ℕ}
use Prim.Native.String.{String}
use mathlib.Core.Path.{◌≡◌, ap, refl}
use mathlib.Core.Logic.{◌↔◌, inl, inr}
use mathlib.Core.Bool.{Bool, true, false}
use mathlib.Core.Option.{Option, none, some}
use mathlib.Core.List.{List, [], ◌∷◌}
use text.Mathlib.Text.{◌==◌ as str_eq}
use text.Mathlib.TextEquality.{eq_iff}
use robo_cam_stream_processi.Prelude.Tests.{◌==◌ as nat_beq, ==_iff, if◌then◌else◌, Bool-cases}

pub record Eq {ℓ} (A : Type ℓ) : Type ℓ where
  pub beq : A → A → Bool
  pub beq_iff : (a b : A) → (beq a b ≡ true) ↔ (a ≡ b)

instance abbrev pub nat_eq : Eq ℕ
nat_eq = record { beq = nat_beq; beq_iff = ==_iff }

instance abbrev pub string_eq : Eq String
string_eq = record { beq = str_eq; beq_iff = eq_iff }

abbrev pub Dict {ℓ κ} : Type ℓ → Type κ → Type (ℓ ⊔ κ)
Dict K V = List (K × V)

module _ {ℓ κ} {K : Type ℓ} {V : Type κ} ⦃e : Eq K⦄ where
  -- `d.get(k)`
  unfoldable pub get : K → Dict K V → Option V
  get k [] = none
  get k ((j, v) ∷ d) = if e.beq j k then some v else get k d

  -- `d[k] = v`
  unfoldable pub put : K → V → Dict K V → Dict K V
  put k v [] = (k, v) ∷ []
  put k v ((j, w) ∷ d) = if e.beq j k then (j, v) ∷ d else (j, w) ∷ put k v d

  -- `d.pop(k, None)`, without the value
  unfoldable pub remove : K → Dict K V → Dict K V
  remove k [] = []
  remove k ((j, v) ∷ d) = if e.beq j k then remove k d else (j, v) ∷ remove k d

  -- `d.update(e)`
  unfoldable pub update : Dict K V → Dict K V → Dict K V
  update d [] = d
  update d ((k, v) ∷ e) = update (put k v d) e

  pub get-put : (k : K) (v : V) (d : Dict K V) → get k (put k v d) ≡ some v
  unfolding get put
  get-put k v [] = let same : e.beq k k ≡ true = (e.beq_iff k k).1 refl in rw same refl
  get-put k v ((j, w) ∷ d) = elim (Bool-cases (e.beq j k)) [
    | inl same ↦ rw (same, same) refl
    | inr other ↦ rw (other, other) (get-put k v d)
  ]

  pub get-put_ne :
      (j k : K) (v : V) (d : Dict K V) → e.beq k j ≡ false → get j (put k v d) ≡ get j d
  unfolding get put
  get-put_ne j k v [] ne = rw ne refl
  get-put_ne j k v ((i, w) ∷ d) ne = elim (Bool-cases (e.beq i k)) [
    | inl same ↦ rw (same, (e.beq_iff i k).0 same, ne) refl
    | inr other ↦ rw other (ap (λ r. if e.beq i j then some w else r) (get-put_ne j k v d ne))
  ]

  pub get-remove : (k : K) (d : Dict K V) → get k (remove k d) ≡ none
  unfolding get remove
  get-remove k [] = refl
  get-remove k ((j, w) ∷ d) = elim (Bool-cases (e.beq j k)) [
    | inl same ↦ rw same (get-remove k d)
    | inr other ↦ rw (other, other) (get-remove k d)
  ]

  pub get-remove_ne : (j k : K) (d : Dict K V) → e.beq k j ≡ false → get j (remove k d) ≡ get j d
  unfolding get remove
  get-remove_ne j k [] ne = refl
  get-remove_ne j k ((i, w) ∷ d) ne = elim (Bool-cases (e.beq i k)) [
    | inl same ↦ rw (same, (e.beq_iff i k).0 same, ne) (get-remove_ne j k d ne)
    | inr other ↦ rw other (ap (λ r. if e.beq i j then some w else r) (get-remove_ne j k d ne))
  ]
