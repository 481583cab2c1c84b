-- ===== src/StringTokenizer/Laws.antt =====
-- STRING_TOKENIZER_get_next_token of src/string_tokenizer.c with one delimiter.
use azure_c_shared_utility.Base.{
  ℕ, suc, ◌+◌, ◌-◌, ◌≤◌, ◌≡◌, ◌∙◌, ap, sym, refl, Bool, true, false, Option, none, some, [], ◌∷◌,
  ◌++◌, append-nil, ltb, ◌==◌, if◌then◌else◌, All, Bytes, length, length-append, take, take_all,
  take_append, drop, drop_append, Outcomes, Bool-cases, inl, inr, arith,
}
use azure_c_shared_utility.Strings.{Status, success, failure}
use azure_c_shared_utility.Strings
use azure_c_shared_utility.StringTokenizer.{
  StringToken, amount_of, step_of, copied, is_delimiter, skip, strchr, end_of_token, copy_token,
  get_next_token,
}

-- What follows a token: nothing, or the delimiter and the rest.
abbrev pub following : ℕ → Option Bytes → Bytes
following d none = []
following d (some after) = d ∷ after

abbrev pub AllDelimiters : ℕ → Bytes → Type 0
AllDelimiters d s = All (λ c. (c == d) ≡ true) s

abbrev pub NoDelimiter : ℕ → Bytes → Type 0
NoDelimiter d s = All (λ c. (c == d) ≡ false) s

skip_lem :
    (d : ℕ) (skipped : Bytes) (c : ℕ) (s : Bytes)
    → AllDelimiters d skipped
    → (c == d) ≡ false
    → skip (d ∷ []) (skipped ++ (c ∷ s)) ≡ length skipped
unfolding skip is_delimiter
skip_lem d [] c s all other = rw (other, skip, is_delimiter) refl
skip_lem d (x ∷ skipped) c s all other =
    rw (all.0, skip) (ap suc (skip_lem d skipped c s all.1 other))

strchr_lem :
    (d : ℕ) (token : Bytes) (after : Option Bytes)
    → NoDelimiter d token
    → (d == d) ≡ true
    → strchr (token ++ following d after) d
      ≡ elim after as (λ x. Option ℕ) [ none ↦ none | some s ↦ some (length token) ]
unfolding strchr
strchr_lem d [] none free same = refl
strchr_lem d [] (some s) free same = rw (same, strchr) refl
strchr_lem d (c ∷ token) none free same =
    rw (free.0, strchr, strchr_lem d token none free.1 same) refl
strchr_lem d (c ∷ token) (some s) free same =
    rw (free.0, strchr, strchr_lem d token (some s) free.1 same) refl

copy_n_lem :
    (got : Outcomes) (old s : Bytes) (n : ℕ)
    → n ≤ length s
    → Strings.copy_n got (some old) (some s) n
      ≡ (if got 0 then (success, some (take n s)) else (failure, some old))
unfolding Strings.copy_n
copy_n_lem got old s n bound = elim (Bool-cases (ltb n (length s))) [
  | inl shorter ↦ rw shorter refl
  | inr whole ↦
      let same : length s ≡ n = ground arith in
      rw whole (ap (λ k. if got 0 then (success, some (take k s)) else (failure, some old)) same)
]

found_in :
    (d : ℕ) (s : Bytes) (found : Option ℕ) → strchr s d ≡ found → end_of_token (d ∷ []) s ≡ found
unfolding end_of_token
found_in d s none e = rw (e, end_of_token) refl
found_in d s (some i) e = rw (e, end_of_token) refl

if_copied :
    (b : Bool) (t : StringToken) (n : ℕ) (token old : Bytes)
    → copied t n (if b then (success, some token) else (failure, some old)) ≡ (
        if b
        then record {
          status = success;
          token = record t { position = t.position + n };
          output = some token;
        }
        else record { status = failure; token = t; output = some old })
unfolding copied
if_copied true t n token old = refl
if_copied false t n token old = refl

token_copied :
    (got : Outcomes) (t : StringToken) (old : Bytes) (d : ℕ) (token : Bytes) (after : Option Bytes)
    → NoDelimiter d token
    → copy_token got t (some old) (d ∷ []) (token ++ following d after) ≡ (
        if got 0
        then record {
          status = success;
          token = record t {
            position =
                t.position + (length token + elim after as (λ x. ℕ) [ none ↦ 0 | some s ↦ 1 ]);
          };
          output = some token;
        }
        else record { status = failure; token = t; output = some old })
unfolding copy_token amount_of step_of
token_copied got t old d token none free =
    let same : (d == d) ≡ true = ground arith in
    let plain : token ++ [] ≡ token = append-nil token in
    let sum : length token + 0 ≡ length token = omega arith in
    let found =
      found_in d token none
        (ap (λ s. strchr s d) (sym plain) ∙ strchr_lem d token none free same) in
    rw
      (
        plain,
        found,
        copy_n_lem got old token (length token) (omega arith),
        take_all (length token) token (omega arith),
        sum,
      )
      (if_copied (got 0) t (length token) token old)
token_copied got t old d token (some s) free =
    let same : (d == d) ≡ true = ground arith in
    let found =
      found_in d (token ++ (d ∷ s)) (some (length token)) (strchr_lem d token (some s) free same) in
    rw
      (
        found,
        copy_n_lem got old (token ++ (d ∷ s)) (length token)
            (omega (arith, length-append {0} token (d ∷ s))),
        take_append token (d ∷ s),
      )
      (if_copied (got 0) t (length token + 1) token old)

-- STRING_TOKENIZER_get_next_token with one delimiter, at a place of the text where delimiters, a
-- token and then the end of the text or a delimiter follow: if the output gets its memory, it is
-- exactly the token, and the position is behind the token and the delimiter that ends it; if not,
-- the call fails, the output stays, and the position is at the start of the token, so that the next
-- call finds it again.
pub get_next_token-token :
    (got : Outcomes) (t : StringToken) (old : Bytes) (d c : ℕ) (skipped token : Bytes)
    (after : Option Bytes)
    → AllDelimiters d skipped
    → NoDelimiter d (c ∷ token)
    → drop t.position t.input ≡ skipped ++ ((c ∷ token) ++ following d after)
    → get_next_token got t (some old) (some (d ∷ [])) ≡ (
        if got 0
        then record {
          status = success;
          token = record t {
            position =
                t.position
                + length skipped
                + (length (c ∷ token) + elim after as (λ x. ℕ) [ none ↦ 0 | some s ↦ 1 ]);
          };
          output = some (c ∷ token);
        }
        else record {
          status = failure;
          token = record t { position = t.position + length skipped };
          output = some old;
        })
unfolding get_next_token
get_next_token-token got t old d c skipped token after all free rest =
    let tail : Bytes = (c ∷ token) ++ following d after in
    let size = length-append {0} skipped tail in
    let some_text : (length (skipped ++ tail) == 0) ≡ false = ground (arith, size) in
    let more : (length (skipped ++ tail) - length skipped == 0) ≡ false = ground (arith, size) in
    rw
      (
        rest,
        some_text,
        skip_lem d skipped c (token ++ following d after) all free.0,
        more,
        drop_append skipped tail,
      )
      (token_copied got (record t { position = t.position + length skipped }) old d (c ∷ token)
        after free)
