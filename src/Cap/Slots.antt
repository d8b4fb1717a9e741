-- ===== src/Cap/Slots.antt =====
-- The slot vector under both tables of kernel/src/cap.rs (`KoSlot`, `CapSlot`): a generation and an
-- optional content, the first vacant slot reused under the next generation.
pub mod Place
pub mod Laws
use pureshade_os.Base.{
  ℕ, zero, suc, ◌+◌, ◌%◌, Option, none, some, List, [], ◌∷◌, ◌++◌, length, get_elem?, set, ◌==◌,
  if◌then◌else◌,
}
use pureshade_os.Cap.Types.{pack, index, generation, u32_mod}

pub record Slot {ℓ} (A : Type ℓ) : Type ℓ where
  pub generation_of : ℕ
  pub content : Option A

-- `generation.wrapping_add(1)` on a `u32`.
abbrev pub next_generation : ℕ → ℕ
next_generation g = (g + 1) % u32_mod

module _ {ℓ} {A : Type ℓ} where
  -- The loop of `create` and `insert`: index and generation of the first vacant slot, from `i` on.
  unfoldable pub first_vacant : List (Slot A) → ℕ → Option (ℕ × ℕ)
  first_vacant [] i = none
  first_vacant (s ∷ ss) i = elim s.content [
    | none ↦ some (i, s.generation_of)
    | some _ ↦ first_vacant ss (i + 1)
  ]

  abbrev pub filled : ℕ → A → Slot A
  filled g a = record { generation_of = g; content = some a }

  -- Reuse the first vacant slot under its next generation, else append one of generation 0.
  unfoldable pub place : List (Slot A) → A → List (Slot A) × ℕ
  place ss a = elim (first_vacant ss 0) [
    | some (i, g) ↦ (set ss i (filled (next_generation g) a), pack i (next_generation g))
    | none ↦ (ss ++ filled 0 a ∷ [], pack (length ss) 0)
  ]

  abbrev pub read_slot : Option (Slot A) → ℕ → Option A
  read_slot none g = none
  read_slot (some s) g = if s.generation_of == g then s.content else none

  -- What a handle names: the content of its slot, at its generation.
  unfoldable pub live : List (Slot A) → ℕ → Option A
  live ss h = read_slot (get_elem? ss (index h)) (generation h)

  -- `slot.content = None`, the generation kept.
  unfoldable pub vacate : List (Slot A) → ℕ → List (Slot A)
  vacate [] i = []
  vacate (s ∷ ss) zero = record s { content = none } ∷ ss
  vacate (s ∷ ss) (suc i) = s ∷ vacate ss i
