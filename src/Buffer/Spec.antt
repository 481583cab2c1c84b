-- ===== src/Buffer/Spec.antt =====
-- What a buffer promises: a handle holds a sequence of bytes, or none if nothing was built, and an
-- operation maps that content and its arguments to a status and the new content.
use azure_c_shared_utility.Base.{
  ℕ, ◌+◌, ◌-◌, ◌≡◌, sym, ap, append-nil, Bool, true, false, not, ◌||◌, Option, none, some, [], ◌++◌,
  ltb, ◌==◌, if◌then◌else◌, Bytes, length, take, drop, replicate, size_max,
}
use azure_c_shared_utility.Buffer.{Status, success, failure, Buffer, Reply}

abbrev pub Content : Type 0
Content = Option Bytes

-- A block may be larger than the content, which stands at its start.
abbrev pub Holds : Buffer → Content → Type 0
Holds b none = (b.buffer ≡ none) × (b.size ≡ 0)
Holds b (some xs) = (rest : Bytes) × (b.buffer ≡ some (xs ++ rest)) × (b.size ≡ length xs)

-- A block of exactly the content's size.
pub Holds-exact :
    (xs : Bytes) (n : ℕ) → n ≡ length xs → Holds (record { buffer = some xs; size = n }) (some xs)
Holds-exact xs n h = ([], ap some (sym (append-nil xs)), h)

-- A buffer with content `xs` and further allocated bytes.
abbrev pub held : Bytes → Bytes → Buffer
held xs rest = record { buffer = some (xs ++ rest); size = length xs }

abbrev pub blank : Buffer
blank = record { buffer = none; size = 0 }

pub Holds-held :
    (xs rest : Bytes) {b : Buffer}
    → b.buffer ≡ some (xs ++ rest)
    → b.size ≡ length xs
    → b ≡ held xs rest
Holds-held xs rest p q = λ i. record { buffer = p i; size = q i }

pub Holds-blank : {b : Buffer} → b.buffer ≡ none → b.size ≡ 0 → b ≡ blank
Holds-blank p q = λ i. record { buffer = p i; size = q i }

-- The code accesses no memory out of range, and ends as the specification says.
abbrev pub Refines : Reply → Status × Content → Type 0
Refines reply (status, c) = (b : Buffer) × (reply ≡ some (status, some b)) × Holds b c

abbrev pub bytes_of : Content → Bytes
bytes_of none = []
bytes_of (some xs) = xs

abbrev pub unless : Bool → Content → Content → Status × Content
unless true before then_holds = (failure, before)
unless false before then_holds = (success, then_holds)

-- `got` is the outcome of the request for memory.
abbrev pub build_spec : Bool → Content → Bytes → ℕ → Status × Content
build_spec got c source n =
    if n == 0 then (success, none) else unless (not got) c (some (take n source))

abbrev pub append_build_spec : Bool → Content → Bytes → ℕ → Status × Content
append_build_spec got none source n = unless ((n == 0) || not got) none (some (take n source))
append_build_spec got (some xs) source n =
    unless ((n == 0) || (not (ltb (length xs + n) size_max) || not got)) (some xs)
      (some (xs ++ take n source))

abbrev pub shrink_spec : Bool → Content → ℕ → Bool → Status × Content
shrink_spec got c n from_end =
    let xs = bytes_of c in
    if (n == 0) || ltb (length xs) n
    then (failure, c)
    else if length xs == n
    then (success, none)
    else unless (not got) c (some (if from_end then take (length xs - n) xs else drop n xs))

abbrev pub append_spec : Bool → Bool → Content → Content → Status × Content
append_spec got same none c2 = (failure, none)
append_spec got same (some xs) none = (failure, some xs)
append_spec got same (some xs) (some ys) =
    if same
    then (failure, some xs)
    else if length ys == 0
    then (success, some xs)
    else unless (not (ltb (length xs + length ys) size_max) || not got) (some xs) (some (xs ++ ys))

-- One byte more is asked for than is needed.
abbrev pub prepend_spec : Bool → Bool → Content → Content → Status × Content
prepend_spec got same none c2 = (failure, none)
prepend_spec got same (some xs) none = (failure, some xs)
prepend_spec got same (some xs) (some ys) =
    if same
    then (failure, some xs)
    else if length ys == 0
    then (success, some xs)
    else unless (not (ltb (length xs + length ys + 1) size_max) || not got) (some xs)
        (some (ys ++ xs))

abbrev pub fill_spec : Content → ℕ → Status × Content
fill_spec none c = (success, none)
fill_spec (some xs) c = (success, some (replicate (length xs) c))
