-- ===== src/UwsFrameEncoder/Writes.antt =====
-- The writes of src/uws_frame_encoder.c, one behind the other.
use azure_c_shared_utility.Base.{
  ℕ, zero, suc, ◌+◌, ◌-◌, ◌%◌, ◌<◌, ◌≤◌, ◌≡◌, ◌∙◌, sym, ap, refl, Bool, true, false, some, [], ◌∷◌,
  ◌++◌, append_assoc, append-nil, bit_xor, Bytes, take_all, copy_out_lem, length, length-append,
  length-drop, drop, get_or, get_elem?, ltb, ◌==◌, arith, copy_in, copy_out, copy_in-extend,
  copy_in_lem, copy_in-append, Bool-cases, inl, inr,
}
use azure_c_shared_utility.UwsFrameEncoder.{
  first_byte, length_code, more_length, mask_key, header_bytes, or_at, write_key, mask_loop,
  write_payload, write_frame,
}
use azure_c_shared_utility.UwsFrameEncoder.Spec.{masked, plain_header, marked_header, frame}

get_elem?-front :
    (key more : Bytes) (j : ℕ) → j < length key → get_elem? (key ++ more) j ≡ some (get_or key j 0)
get_elem?-front [] more j h = absurd (omega arith)
get_elem?-front (k ∷ key) more zero h = refl
get_elem?-front (k ∷ key) more (suc j) h = get_elem?-front key more j (omega arith)

get_elem?-key :
    (header key more : Bytes) (at_key j : ℕ)
    → at_key ≡ length header + j
    → j < length key
    → get_elem? (header ++ (key ++ more)) at_key ≡ some (get_or key j 0)
get_elem?-key [] key more at_key j e h =
    let same : at_key ≡ j = omega arith in rw same (get_elem?-front key more j h)
get_elem?-key (x ∷ header) key more zero j e h = absurd (omega arith)
get_elem?-key (x ∷ header) key more (suc at_key) j e h =
    get_elem?-key header key more at_key j (omega arith) h

mask_loop_lem :
    (i start : ℕ) (header key out pre payload rest : Bytes)
    → pre ≡ header ++ (key ++ out)
    → length key ≡ 4
    → length header + 4 ≡ start
    → length pre ≡ start + i
    → length rest ≡ length payload
    → mask_loop (length payload) i start payload (pre ++ rest) ≡ some (pre ++ masked key i payload)
unfolding mask_loop masked
mask_loop_lem i start header key out pre [] [] e k s n l = refl
mask_loop_lem i start header key out pre [] (r ∷ rest) e k s n l = absurd (omega arith)
mask_loop_lem i start header key out pre (p ∷ payload) [] e k s n l = absurd (omega arith)
mask_loop_lem i start header key out pre (p ∷ payload) (r ∷ rest) e k s n l =
    let key_byte : get_elem? (pre ++ (r ∷ rest)) (start - 4 + i % 4) ≡ some (get_or key (i % 4) 0) =
      ap (λ t. get_elem? t (start - 4 + i % 4)) (behind_key (r ∷ rest))
      ∙ get_elem?-key header key (out ++ (r ∷ rest)) (start - 4 + i % 4) (i % 4) (omega arith)
          (omega arith) in
    let x = bit_xor p (get_or key (i % 4) 0) in
    let stored : copy_in (pre ++ (r ∷ rest)) (start + i) (x ∷ [])
        ≡ some ((pre ++ (x ∷ [])) ++ rest) =
      rw (sym n) (copy_in_lem pre (r ∷ []) (x ∷ []) rest refl)
      ∙ ap some (sym (append_assoc pre (x ∷ []) rest)) in
    let longer : pre ++ (x ∷ []) ≡ header ++ (key ++ (out ++ (x ∷ []))) = behind_key (x ∷ []) in
    let size : length (pre ++ (x ∷ [])) ≡ start + (i + 1) =
      omega (arith, length-append {0} pre (x ∷ [])) in
    rw
      (
        key_byte,
        stored,
        mask_loop_lem (i + 1) start header key (out ++ (x ∷ [])) (pre ++ (x ∷ [])) payload rest
            longer k s size (omega arith),
      )
      (ap some (append_assoc pre (x ∷ []) (masked key (i + 1) payload)))
  where
    behind_key : (more : Bytes) → pre ++ more ≡ header ++ (key ++ (out ++ more))
    behind_key more =
        ap (λ t. t ++ more) e
        ∙ append_assoc header (key ++ out) more
        ∙ ap (λ t. header ++ t) (append_assoc key out more)

-- The first byte and those behind it, written one behind the other.
two_writes :
    (block : Bytes) (first : ℕ) (more : Bytes)
    → suc (length more) ≤ length block
    → (rest : Bytes) × (copy_in block 0 (first ∷ []) ≡ some (first ∷ rest))
      × (copy_in (first ∷ rest) 1 more ≡ some (first ∷ (more ++ drop (length more) rest)))
      × (suc (length rest) ≡ length block)
two_writes [] first more fits = absurd (omega arith)
two_writes (x ∷ block) first more fits = (
  block,
  copy_in-extend [] (x ∷ block) (first ∷ []) 0 refl (omega arith),
  copy_in-extend (first ∷ []) block more 1 refl (omega arith),
  refl,
)

pub length-header :
    (size opcode : ℕ) (is_final : Bool) (reserved : ℕ)
    → length (plain_header opcode is_final reserved size) ≡ header_bytes size false
unfolding header_bytes more_length
length-header size opcode is_final reserved = elim (Bool-cases (ltb 65535 size)) [
  | inl long ↦ rw long refl
  | inr not_long ↦ elim (Bool-cases (ltb 125 size)) [
    | inl middle ↦ rw (not_long, middle) refl
    | inr short ↦ rw (not_long, short) refl
  ]
]

pub header_bytes-masked : (size : ℕ) → header_bytes size true ≡ header_bytes size false + 4
unfolding header_bytes
header_bytes-masked size = omega arith

-- The payload behind `header`, in a block of the right size.
write_plain :
    (header payload rest : Bytes) (at_end : ℕ)
    → at_end ≡ length header
    → length rest ≡ length payload
    → write_payload (header ++ rest) at_end (some payload) (length payload) false
      ≡ some (header ++ payload)
unfolding write_payload
write_plain header [] [] at_end e l = refl
write_plain header [] (r ∷ rest) at_end e l = absurd (omega arith)
write_plain header (p ∷ payload) rest at_end e l =
    let not_empty : (length (p ∷ payload) == 0) ≡ false = ground arith in
    let source : copy_out (p ∷ payload) (length (p ∷ payload)) ≡ some (p ∷ payload) =
      copy_out_lem (p ∷ payload) (length (p ∷ payload)) (omega arith)
      ∙ ap some (take_all (length (p ∷ payload)) (p ∷ payload) (omega arith)) in
    rw (e, not_empty, source) (copy_in-append header rest (p ∷ payload) l)

write_masked :
    (header key payload rest : Bytes) (at_end : ℕ)
    → length key ≡ 4
    → at_end ≡ length header + 4
    → length rest ≡ length payload
    → write_payload ((header ++ key) ++ rest) at_end (some payload) (length payload) true
      ≡ some ((header ++ key) ++ masked key 0 payload)
unfolding write_payload masked
write_masked header key [] [] at_end k e l = refl
write_masked header key [] (r ∷ rest) at_end k e l = absurd (omega arith)
write_masked header key (p ∷ payload) rest at_end k e l =
    let not_empty : (length (p ∷ payload) == 0) ≡ false = ground arith in
    rw not_empty (
      mask_loop_lem 0 at_end header key [] (header ++ key) (p ∷ payload) rest
        (ap (λ t. header ++ t) (sym (append-nil key))) k (omega arith)
        (omega (arith, length-append {0} header key)) l)

-- The whole frame, in a block of its size.
pub write_frame_lem :
    (rand : ℕ → ℕ) (block : Bytes) (opcode : ℕ) (payload : Bytes) (is_masked is_final : Bool)
    (reserved : ℕ)
    → length block ≡ header_bytes (length payload) is_masked + length payload
    → write_frame rand block opcode (some payload) (length payload) is_masked is_final reserved
      ≡ some (frame rand opcode payload is_masked is_final reserved)
unfolding write_frame write_key mask_key or_at
write_frame_lem rand block opcode payload false is_final reserved e =
    let size = length payload in
    let first = first_byte opcode is_final reserved in
    let more = length_code size ∷ more_length size in
    let n = length-header size opcode is_final reserved in
    let (rest, one, two, left) = two_writes block first more (omega arith) in
    rw (one, two)
      (write_plain (first ∷ more) payload (drop (length more) rest) (header_bytes size false)
        (sym n) (omega (arith, length-drop {0} (length more) rest)))
write_frame_lem rand block opcode payload true is_final reserved e =
    let size = length payload in
    let first = first_byte opcode is_final reserved in
    let more = length_code size ∷ more_length size in
    let marked = marked_header opcode is_final reserved size in
    let n = length-header size opcode is_final reserved in
    let wider = header_bytes-masked size in
    let (rest, one, two, left) = two_writes block first more (omega arith) in
    let behind = drop (length more) rest in
    let room = length-drop {0} (length more) rest in
    let key =
      copy_in-extend marked behind (mask_key rand) (header_bytes size true - 4) (omega arith)
        (omega arith) in
    rw (one, two, key)
      (write_masked marked (mask_key rand) payload (drop 4 behind) (header_bytes size true) refl
        (omega arith) (omega (arith, length-drop {0} 4 behind)))
