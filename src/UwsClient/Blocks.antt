-- ===== src/UwsClient/Blocks.antt =====
-- The blocks of src/uws_client.c: what is in the stream buffer and the fragment buffer behind their realloc.
use azure_c_shared_utility.Base.{
  ◌+◌, ◌≡◌, ◌∙◌, sym, ap, refl, some, none, [], ◌∷◌, ◌++◌, append_assoc, if◌then◌else◌, Bytes,
  length, length-append, Garbage, copy_in, copy_in_lem, copy_in-append, copy_out, copy_out-append,
  resize, resize-append, split_at, take_append, take, Bool-cases, inl, inr, append-nil, arith,
}
use azure_c_shared_utility.UwsClient.{UwsClient, World, process_frame_fragment}
use azure_c_shared_utility.UwsClient.Receive.{add_to_stream}

pub add_to_stream_lem :
    (g : Garbage) (stream buffer : Bytes) → add_to_stream g stream buffer ≡ some (stream ++ buffer)
unfolding add_to_stream
add_to_stream_lem g stream buffer =
    let n = length stream + length buffer in
    let (rest, e, size) = resize-append g stream [] (length buffer + 1) in
    let (mid, post, parts, mid_size) = split_at (length buffer) rest (omega (arith, size)) in
    let last : length post ≡ 1 =
      omega (arith, size, ap length parts, length-append mid post, mid_size) in
    let same : length stream + length buffer + 1 ≡ length stream + (length buffer + 1) =
      omega arith in
    let allocated : resize g stream (length stream + length buffer + 1) ≡ stream ++ (mid ++ post) =
      ap (resize g stream) same
      ∙ ap (λ t. resize g t (length stream + (length buffer + 1))) (sym (append-nil stream))
      ∙ e
      ∙ ap (λ t. stream ++ t) parts in
    let whole = length-append stream buffer in
    let terminated : copy_in (stream ++ (buffer ++ post)) n (0 ∷ [])
        ≡ some ((stream ++ buffer) ++ (0 ∷ [])) =
      ap (λ t. copy_in t n (0 ∷ [])) (sym (append_assoc stream buffer post))
      ∙ ap (λ k. copy_in ((stream ++ buffer) ++ post) k (0 ∷ [])) (sym whole)
      ∙ copy_in-append (stream ++ buffer) post (0 ∷ []) last in
    let read : copy_out ((stream ++ buffer) ++ (0 ∷ [])) n ≡ some (stream ++ buffer) =
      ap (copy_out ((stream ++ buffer) ++ (0 ∷ []))) (sym whole)
      ∙ copy_out-append (stream ++ buffer) (0 ∷ []) (length (stream ++ buffer)) (omega arith)
      ∙ ap some (
          ap (take (length (stream ++ buffer))) (sym (append-nil (stream ++ buffer)))
          ∙ take_append (stream ++ buffer) []) in
    rw (allocated, copy_in_lem stream mid buffer post mid_size, terminated, read) refl

-- realloc for the fragments and the copy behind them stay in the block.
pub process_frame_fragment_lem :
    (w : World) (c : UwsClient) (payload : Bytes)
    → process_frame_fragment w c payload
      ≡ some
          (if w.got c.clock then some (record c { fragments = c.fragments ++ payload }) else none)
unfolding process_frame_fragment
process_frame_fragment_lem w c payload = elim (Bool-cases (w.got c.clock)) [
  | inl had ↦
      let (rest, e, size) = resize-append (w.garbage c.clock) c.fragments [] (length payload) in
      let allocated : resize (w.garbage c.clock) c.fragments (length c.fragments + length payload)
          ≡ c.fragments ++ rest =
        ap (λ t. resize (w.garbage c.clock) t (length c.fragments + length payload))
          (sym (append-nil c.fragments))
        ∙ e in
      rw (had, allocated, copy_in-append c.fragments rest payload size) refl
  | inr lost ↦ rw lost refl
]
