-- ===== src/Hotkeys/Parsing.antt =====
-- src/daemon/hotkey_config.c: reading the arguments of the command.
use cofi.Prelude.{
  true, ◌⊎◌, inl, inr, Bool-cases, ℕ, ◌+◌, ◌-◌, ◌<◌, ◌≤◌, ◌≡◌, refl, false, [], ◌∷◌, ◌++◌, Bytes,
  bytes_eq, is_empty, codes, length, length-append, take_all, All, arith,
}
use cofi.Hotkeys.{
  Request, is_blank, skip_spaces, split_word, is_keyword, keywords, parse_binding, parse_words,
  parse_hotkey_command,
}

-- A word has no blank, and something follows that is not a blank.
abbrev pub IsWord : Bytes → Type 0
IsWord s = (is_empty s ≡ false) × All (λ c. is_blank c ≡ false) s

abbrev pub StartsHere : Bytes → Type 0
StartsHere s = (is_empty s ≡ false) × (skip_spaces s ≡ s)

split_word-append :
    (word rest : Bytes)
    → All (λ c. is_blank c ≡ false) word
    → split_word (word ++ (32 ∷ rest)) ≡ (word, 32 ∷ rest)
unfolding split_word
split_word-append [] rest h = refl
split_word-append (c ∷ word) rest (hc, h) = rw (split_word-append word rest h, hc) refl

skip_spaces-word : (word rest : Bytes) → IsWord word → skip_spaces (word ++ rest) ≡ word ++ rest
unfolding skip_spaces
skip_spaces-word [] rest (there, h) = absurd (ground arith)
skip_spaces-word (c ∷ word) rest (there, (hc, h)) = rw hc refl

skip_spaces-blank : (s : Bytes) → skip_spaces (32 ∷ s) ≡ skip_spaces s
unfolding skip_spaces
skip_spaces-blank s = refl

not_empty-append : (word rest : Bytes) → IsWord word → is_empty (word ++ rest) ≡ false
not_empty-append [] rest (there, h) = absurd (ground arith)
not_empty-append (c ∷ word) rest h = refl

parse_binding_lem :
    (key command : Bytes) (key_size cmd_size : ℕ)
    → IsWord key
    → StartsHere command
    → length key < key_size
    → length command < cmd_size
    → parse_binding key_size cmd_size (key ++ (32 ∷ command)) ≡ Request.bind key command
unfolding parse_binding
parse_binding_lem key command key_size cmd_size word (there, here) fits_key fits =
    rw
      (
        split_word-append key command word.1,
        not_empty-append key (32 ∷ command) word,
        skip_spaces-blank command,
        here,
        there,
        take_all (key_size - 1) key (omega arith),
        take_all (cmd_size - 1) command (omega arith),
      )
      refl

words_plain :
    (key command : Bytes) (key_size cmd_size : ℕ)
    → IsWord key
    → is_keyword key (codes "list" ∷ keywords) ≡ false
    → parse_words key_size cmd_size (key ++ (32 ∷ command))
      ≡ parse_binding key_size cmd_size (key ++ (32 ∷ command))
unfolding parse_words is_keyword
words_plain key command key_size cmd_size word plain =
    rw (split_word-append key command word.1) (ground (arith, plain))

words_set :
    (t : Bytes) (key_size cmd_size : ℕ)
    → parse_words key_size cmd_size (codes "set" ++ (32 ∷ t))
      ≡ parse_binding key_size cmd_size (skip_spaces t)
unfolding parse_words is_keyword bytes_eq skip_spaces
words_set t key_size cmd_size =
    rw (split_word-append (codes "set") t (refl, (refl, (refl, tt)))) refl

skip_spaces-set : (t : Bytes) → skip_spaces (codes "set" ++ t) ≡ codes "set" ++ t
unfolding skip_spaces
skip_spaces-set t = refl

-- A key and a command behind it are read as their binding, with the word `set` in front or without:
-- the key is a word, the command does not begin with a blank, both fit their buffers, and together
-- they have at most 500 bytes. Without the word, the key is none of the words that the code looks for.
pub parse_set_lem :
    (key command : Bytes) (key_size cmd_size : ℕ)
    → IsWord key
    → StartsHere command
    → length key < key_size
    → length command < cmd_size
    → length key + length command ≤ 500
    → (parse_hotkey_command (codes "set" ++ (32 ∷ key ++ (32 ∷ command))) key_size cmd_size
        ≡ Request.bind key command)
      × ((is_keyword key (codes "list" ∷ keywords) ≡ true)
          ⊎ (parse_hotkey_command (key ++ (32 ∷ command)) key_size cmd_size
              ≡ Request.bind key command))
unfolding parse_hotkey_command
parse_set_lem key command key_size cmd_size word starts fits_key fits total = (
  rw
      (
        take_all 511 (codes "set" ++ (32 ∷ key ++ (32 ∷ command)))
            (omega (arith, length-append key (32 ∷ command))),
        skip_spaces-set (32 ∷ key ++ (32 ∷ command)),
        words_set (key ++ (32 ∷ command)) key_size cmd_size,
        skip_spaces-word key (32 ∷ command) word,
      )
      (parse_binding_lem key command key_size cmd_size word starts fits_key fits),
  elim (Bool-cases (is_keyword key (codes "list" ∷ keywords))) [
    | inl keyword ↦ inl keyword
    | inr plain ↦ inr (
        rw
          (
            take_all 511 (key ++ (32 ∷ command)) (omega (arith, length-append key (32 ∷ command))),
            skip_spaces-word key (32 ∷ command) word,
            words_plain key command key_size cmd_size word plain,
          )
          (parse_binding_lem key command key_size cmd_size word starts fits_key fits))
  ],
)
