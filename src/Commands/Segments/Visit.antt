-- ===== src/Commands/Segments/Visit.antt =====
-- A command line is run segment by segment, as the reference lists them.
use cofi.Prelude.{
  ℕ, zero, suc, ◌<◌, ◌≡◌, refl, sym, Bool, true, [], ◌∷◌, Option, none, some, Bytes, is_empty,
  length, take, copy_to, if◌then◌else◌, arith, Bool-cases, inl, inr,
}
use cofi.Commands.Split.Laws.{KeepsFirst, Finds, next_segment_lem, segments_empty}
use cofi.Commands.Segments.{
  isspace, next_command_segment, visit_loop, visit_command_segments, visit_all, command_segments,
  trim_whitespace_in_place,
}

copy_KeepsFirst : KeepsFirst (copy_to 256)
copy_KeepsFirst = record { cut_empty = refl; kept = λ c s. take 254 s; cut_first = λ c s. refl }

module _ {ℓ} {S : Type ℓ} (visitor : S → Bytes → S × Bool) where
  visit_next :
      (rounds : ℕ) (s : S) (cursor : Bytes) (found : Option (Bytes × Bytes))
      → next_command_segment cursor ≡ found
      → Finds isspace (copy_to 256) copy_KeepsFirst cursor found
      → length cursor < suc rounds
      → ((s' : S) (rest : Bytes)
          → length rest < rounds
          → visit_loop visitor rounds s' rest ≡ visit_all visitor (command_segments rest) s')
      → visit_loop visitor (suc rounds) s cursor ≡ visit_all visitor (command_segments cursor) s
  unfolding visit_loop visit_all
  visit_next rounds s cursor none e h b later = rw (e, visit_loop) (rw h refl)
  visit_next rounds s cursor (some (segment, rest)) e (h, shorter) b later =
      rw (e, visit_loop)
        (rw h (elim (Bool-cases (visitor s segment).1) [
          | inl ok ↦ rw (ok, visit_all) (later (visitor s segment).0 rest (omega arith))
          | inr refused ↦ rw (refused, visit_all) refl
        ]))

  visit_loop_lem :
      (rounds : ℕ) (s : S) (cursor : Bytes)
      → length cursor < rounds
      → visit_loop visitor rounds s cursor ≡ visit_all visitor (command_segments cursor) s
  unfolding next_command_segment
  visit_loop_lem zero s cursor b = absurd (omega arith)
  visit_loop_lem (suc rounds) s cursor b =
      visit_next rounds s cursor (next_command_segment cursor) refl
        (next_segment_lem isspace (copy_to 256) copy_KeepsFirst (length cursor) cursor) b
        (λ s' rest h. visit_loop_lem rounds s' rest h)

-- Running a command line runs the visitor over the parts between the commas of its trimmed first 511
-- bytes, each cut to 255 bytes and trimmed, but for the empty ones: in order, and up to the first
-- part that the visitor refuses.
pub visit_command_segments-visit_all {ℓ} :
    {S : Type ℓ} (visitor : S → Bytes → S × Bool) (command : Bytes) (s : S)
    → visit_command_segments visitor command s
      ≡ visit_all visitor (command_segments (trim_whitespace_in_place (copy_to 512 command))) s
unfolding visit_command_segments visit_all
visit_command_segments-visit_all visitor command s =
    at (trim_whitespace_in_place (copy_to 512 command))
  where
    none_left : visit_all visitor (command_segments []) s ≡ (s, true)
    none_left = rw (segments_empty isspace (copy_to 256) copy_KeepsFirst) refl

    at :
        (local : Bytes)
        → (if is_empty local then (s, true) else visit_loop visitor (suc (length local)) s local)
          ≡ visit_all visitor (command_segments local) s
    at [] = sym none_left
    at (c ∷ t) = visit_loop_lem visitor (suc (length (c ∷ t))) s (c ∷ t) (omega arith)
