-- ===== src/Slots/Keys.antt =====
-- src/core/slot_store/slot_store.c: keys, slots, and the argument of an `@key` command.
use cofi.Prelude.{
  ℕ, zero, suc, pos, ◌+◌, ◌<◌, ◌≡◌, refl, ◌⊎◌, inl, inr, [], ◌∷◌, none, some, Bytes, arith,
  Option-cases,
}
use cofi.Glib.{Glib}
use cofi.Slots.{
  max_harpoon_slots, slot_index_from_key, slot_key_from_index, slot_parse_at_key_arg, parse_at,
  parse_key, skip_spaces,
}

pub index_of_key :
    (i : ℕ) → i < max_harpoon_slots → slot_index_from_key (slot_key_from_index (pos i)) ≡ some i
unfolding slot_index_from_key slot_key_from_index
index_of_key i h = ground arith

-- The key of a slot that some key is read as is read back as that slot, and the key that was read is
-- the slot's key, or its capital letter.
pub keys_lem :
    (i : ℕ) (key : ℕ)
    → slot_index_from_key key ≡ some i
    → (slot_index_from_key (slot_key_from_index (pos i)) ≡ some i)
      × (i < max_harpoon_slots)
      × ((key ≡ slot_key_from_index (pos i)) ⊎ (key + 32 ≡ slot_key_from_index (pos i)))
unfolding slot_index_from_key slot_key_from_index
keys_lem i key e = (ground arith, ground arith, ground arith)

pub index_bound : (key : ℕ) {i : ℕ} → slot_index_from_key key ≡ some i → i < max_harpoon_slots
unfolding slot_index_from_key
index_bound key e = ground arith

abbrev pub blanks : ℕ → Bytes → Bytes
blanks zero s = s
blanks (suc n) s = 32 ∷ blanks n s

skip_spaces-blanks : (g : Glib) (n : ℕ) (s : Bytes) → skip_spaces g (blanks n s) ≡ skip_spaces g s
unfolding skip_spaces
skip_spaces-blanks g zero s = refl
skip_spaces-blanks g (suc n) s = rw g.is_space_blank (skip_spaces-blanks g n s)

-- A key behind an '@' is read, with any number of blanks before and behind, exactly if it is the key
-- of a slot.
pub parse_padded :
    (g : Glib) (n m key : ℕ)
    → slot_parse_at_key_arg g (blanks n (64 ∷ key ∷ blanks m []))
      ≡ (elim (slot_index_from_key key) [ none ↦ none | some i ↦ some key ])
unfolding slot_parse_at_key_arg parse_at parse_key
parse_padded g n m key =
    rw (skip_spaces-blanks g n (64 ∷ key ∷ blanks m []))
      (elim (Option-cases (slot_index_from_key key)) [
        | inl e ↦ ground (arith, g.is_space_at)
        | inr (i, e) ↦ ground (arith, g.is_space_at, skip_spaces-blanks g m [])
      ])
