-- ===== src/CStr/Copying.antt =====
-- What `main` of c_str/main.c prints for any string.
use learning_directory.Base.{
  ℕ, suc, ◌+◌, ◌^◌, ◌%◌, ◌≡◌, ◌≢◌, ◌<◌, refl, sym, ap, ◌∙◌, List, [], ◌∷◌, ◌++◌, append_assoc, Bool,
  true, false, Option, none, some, Bytes, length, length-append, length-map, length-replicate,
  get_elem?-append_length, ltb, leb, take, take_all, drop, replicate, map, if◌then◌else◌, ◌&&◌, All,
  arith,
}
use learning_directory.CopyConstructor.Memory.{read_cells}
use learning_directory.CopyConstructor.Memory.Laws.{read_cells-holding}
use learning_directory.CStr.{constant, memcpy, Printed, byte_at, c_str_main, ◌>>=◌}

-- The byte at the start of a string, which is the zero if it is empty.
abbrev pub first : Bytes → ℕ
first [] = 0
first (c ∷ s) = c

module _ (s : Bytes) (clean : All (λ c. c ≢ 0) s) where
  abbrev cells : List (Option ℕ)
  cells = constant s

  read_back : (rest : List (Option ℕ)) → read_cells (cells ++ rest) ≡ some s
  read_back rest =
      ap read_cells (append_assoc (map some s) (some 0 ∷ []) rest) ∙ read_cells-holding s rest clean

  read_constant : read_cells cells ≡ some s
  read_constant = read_cells-holding s [] clean

  start_byte : byte_at cells 0 ≡ some (first s)
  start_byte = of_string s
    where
      of_string : (t : Bytes) → byte_at (constant t) 0 ≡ some (first t)
      of_string [] = refl
      of_string (c ∷ t) = refl

  end_byte : byte_at cells (length s) ≡ some 0
  end_byte =
      (λ i. byte_at cells (sym (length-map some s) i))
      ∙ ap (λ o. o >>= λ c. c) (get_elem?-append_length (map some s) (some 0) [])

  width : length cells ≡ suc (length s)
  width = omega (arith, length-append (map some s) (some 0 ∷ []), length-map {A = ℕ} some s)

  abbrev temp : List (Option ℕ)
  temp = replicate 1024 none

  abbrev copy_of : Bool → Option (List (Option ℕ))
  copy_of fits = if fits then some (cells ++ drop (suc (length s)) temp) else none

  copied : memcpy temp cells (suc (length s)) ≡ copy_of (ltb (length s) 1024)
  unfolding memcpy
  copied =
      (λ i.
        if whole i && room i
        then some (take (suc (length s)) cells ++ drop (suc (length s)) temp)
        else none)
      ∙ λ i.
          if ltb (length s) 1024
          then some (
              take_all {A = Option ℕ} (suc (length s)) cells (omega (arith, width)) i
              ++ drop (suc (length s)) temp)
          else none
    where
      whole : leb (suc (length s)) (length cells) ≡ true
      whole = ground (arith, width)

      room : leb (suc (length s)) (length temp) ≡ ltb (length s) 1024
      room = let l = length-replicate {A = Option ℕ} 1024 none in ground (arith, l)

  abbrev printed : Printed
  printed = record {
    at_start = first s;
    at_end = 0;
    content_string = s;
    start_string = s;
    size = suc (length s);
    temp_string = s;
  }

  -- What `main` does with the copy.
  abbrev finished : Option (List (Option ℕ)) → Option Printed
  finished o =
      o >>= λ temp. read_cells temp >>= λ copy. some (record printed { temp_string = copy })

  finishes : (fits : Bool) → finished (copy_of fits) ≡ (if fits then some printed else none)
  finishes true =
      ap (λ o. o >>= λ copy. some (record printed { temp_string = copy }))
        (read_back (drop (suc (length s)) temp))
  finishes false = refl

  -- `main` of c_str with any string without zeros whose size is an `unsigned int`: if it is shorter
  -- than 1024 bytes, the byte at `end` is the zero, the size is one more than the length, and the
  -- copy in `temp` reads as the string; otherwise `memcpy` writes behind the end of `temp`.
  pub c_str_main_lem :
      length s + 1 < 2 ^ 32 → c_str_main s ≡ (if ltb (length s) 1024 then some printed else none)
  unfolding c_str_main
  c_str_main_lem short =
      (λ i. read_constant i >>= λ t.
      rest t (byte_at cells 0) (byte_at cells (length t)) ((length t + 1) % 2 ^ 32))
      ∙ (λ i. rest s (start_byte i) (end_byte i) (size i))
      ∙ ap finished copied
      ∙ finishes (ltb (length s) 1024)
    where
      size : (length s + 1) % 2 ^ 32 ≡ suc (length s)
      size = omega arith

      rest : Bytes → Option ℕ → Option ℕ → ℕ → Option Printed
      rest t b e n = b >>= λ at_start. e >>= λ at_end. memcpy temp cells n >>= λ buf.
          read_cells buf >>= λ copy. some (record {
            at_start = at_start;
            at_end = at_end;
            content_string = t;
            start_string = t;
            size = n;
            temp_string = copy;
          })
