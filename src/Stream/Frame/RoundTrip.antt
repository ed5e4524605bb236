-- ===== src/Stream/Frame/RoundTrip.antt =====
-- Frames and their bytes correspond.
use prescient.Prelude.{
  ℕ, zero, suc, ◌+◌, ◌*◌, ◌<◌, ◌≡◌, refl, sym, ap, ◌∙◌, subst, List, [], ◌∷◌, ◌++◌, take, drop,
  length, All, arith, ok, err, ==-cases, inl, inr, take-append-drop, take-length, drop-cons,
  Result-cases, length-take, length-drop, ◌≤◌, drop-drop,
}
use prescient.Word.{word_size}
use prescient.Stream.{u32_size}
use prescient.Stream.ErrorKind.{invalid_data}
use prescient.Stream.Bytes.{to_le_bytes, IsByte, from_le_bytes-to_le_bytes, to_le_bytes_eq}
use prescient.Stream.Frame.{
  Kind, kind_code, kind_from, Frame, encode, decode, word_at, frame_magic, version,
}
use prescient.Stream.Frame.Kind.{payload, released, complete}

-- Each field fits its width.
pub record FitsWire (f : Frame) : Type 0 where
  pub flags : f.flags < 256
  pub transfer_id : f.transfer_id < word_size
  pub offset : f.offset < word_size
  pub slot : f.slot < u32_size
  pub generation : f.generation < u32_size
  pub len : f.len < u32_size
  pub checksum : f.checksum < word_size

kind_from-kind_code : (k : Kind) → kind_from (kind_code k + 256 * 0) ≡ ok k
unfolding kind_from
kind_from-kind_code payload = refl
kind_from-kind_code released = refl
kind_from-kind_code complete = refl

-- What `encode` writes, `decode` reads back.
pub decode-encode : (f : Frame) → FitsWire f → decode (encode f) ≡ ok f
unfolding encode decode
decode-encode f w =
    let one_byte : f.flags + 256 * 0 ≡ f.flags = omega arith in
    rw
      (
        kind_from-kind_code f.kind,
        from_le_bytes-to_le_bytes 8 f.transfer_id w.transfer_id,
        from_le_bytes-to_le_bytes 8 f.offset w.offset,
        from_le_bytes-to_le_bytes 4 f.slot w.slot,
        from_le_bytes-to_le_bytes 4 f.generation w.generation,
        from_le_bytes-to_le_bytes 4 f.len w.len,
        from_le_bytes-to_le_bytes 8 f.checksum w.checksum,
        one_byte,
      )
      refl

All-take : (n : ℕ) (bytes : List ℕ) → All IsByte bytes → All IsByte (take n bytes)
All-take zero bytes h = tt
All-take (suc n) [] h = tt
All-take (suc n) (b ∷ bytes) h = (h.0, All-take n bytes h.1)

All-drop : (n : ℕ) (bytes : List ℕ) → All IsByte bytes → All IsByte (drop n bytes)
All-drop zero bytes h = h
All-drop (suc n) [] h = tt
All-drop (suc n) (b ∷ bytes) h = All-drop n bytes h.1

-- The word in `bytes[at..at + size]` has those bytes.
word_at-bytes :
    (at size : ℕ) (bytes : List ℕ)
    → at + size ≤ length bytes
    → All IsByte bytes
    → to_le_bytes size (word_at at size bytes) ≡ take size (drop at bytes)
word_at-bytes at size bytes inside h =
    to_le_bytes_eq size (take size (drop at bytes))
      (omega (arith, length-take size (drop at bytes), length-drop at bytes, inside))
      (All-take size (drop at bytes) (All-drop at bytes h))

kind_from-eq : (n : ℕ) (k : Kind) → kind_from n ≡ ok k → kind_code k ≡ n
unfolding kind_from
kind_from-eq n payload e = ground (arith, e)
kind_from-eq n released e = ground (arith, e)
kind_from-eq n complete e = ground (arith, e)

-- What `decode` accepts is what it has read.
record Accepted (bytes : List ℕ) (f : Frame) : Type 0 where
  magic : word_at 0 4 bytes ≡ frame_magic
  ours : word_at 4 2 bytes ≡ version
  padding : word_at 36 4 bytes ≡ 0
  kind : kind_from (word_at 6 1 bytes) ≡ ok f.kind
  flags : f.flags ≡ word_at 7 1 bytes
  transfer_id : f.transfer_id ≡ word_at 8 8 bytes
  offset : f.offset ≡ word_at 16 8 bytes
  slot : f.slot ≡ word_at 24 4 bytes
  generation : f.generation ≡ word_at 28 4 bytes
  len : f.len ≡ word_at 32 4 bytes
  checksum : f.checksum ≡ word_at 40 8 bytes

decode-Accepted : (bytes : List ℕ) (f : Frame) → decode bytes ≡ ok f → Accepted bytes f
unfolding decode
decode-Accepted bytes f h = elim (==-cases (word_at 0 4 bytes) frame_magic) [
  | inr (t, differ) ↦ let bad : decode bytes ≡ err invalid_data = rw t refl in absurd (cc)
  | inl (t, magic) ↦ elim (==-cases (word_at 4 2 bytes) version) [
    | inr (u, differ) ↦ let bad : decode bytes ≡ err invalid_data = rw (t, u) refl in absurd (cc)
    | inl (u, ours) ↦ elim (==-cases (word_at 36 4 bytes) 0) [
      | inr (v, differ) ↦
          let bad : decode bytes ≡ err invalid_data = rw (t, u, v) refl in absurd (cc)
      | inl (v, padding) ↦ elim (Result-cases (kind_from (word_at 6 1 bytes))) [
        | inr (e, k) ↦ let bad : decode bytes ≡ err e = rw (t, u, v, k) refl in absurd (cc)
        | inl (kind, k) ↦
            let good : decode bytes ≡ ok (read kind) = rw (t, u, v, k) refl in
            let same : read kind ≡ f = cc in
            subst (Accepted bytes) same (record {
              magic = magic;
              ours = ours;
              padding = padding;
              kind = k;
              flags = refl;
              transfer_id = refl;
              offset = refl;
              slot = refl;
              generation = refl;
              len = refl;
              checksum = refl;
            })
      ]
    ]
  ]
]
  where
    read : Kind → Frame
    read kind = record {
      kind = kind;
      flags = word_at 7 1 bytes;
      transfer_id = word_at 8 8 bytes;
      offset = word_at 16 8 bytes;
      slot = word_at 24 4 bytes;
      generation = word_at 28 4 bytes;
      len = word_at 32 4 bytes;
      checksum = word_at 40 8 bytes;
    }

byte_at :
    (at : ℕ) (bytes : List ℕ)
    → at < length bytes
    → (word_at at 1 bytes ∷ []) ≡ take 1 (drop at bytes)
byte_at at bytes inside =
    let (b, split, here) = drop-cons at bytes inside in
    let one : b + 256 * 0 ≡ b = omega arith in rw (split, one) refl

-- The bytes from `m` on are the next `n` and those behind.
glue :
    (n m : ℕ) (bytes head tail : List ℕ)
    → head ≡ take n (drop m bytes)
    → tail ≡ drop (m + n) bytes
    → head ++ tail ≡ drop m bytes
glue n m bytes head tail h t =
    ap (λ l. l ++ tail) h
    ∙ ap (λ l. take n (drop m bytes) ++ l) (t ∙ sym (drop-drop n m bytes))
    ∙ take-append-drop n (drop m bytes)

-- The wire format is canonical: 48 bytes that `decode` accepts are those that `encode` writes for the frame.
pub encode-decode :
    (bytes : List ℕ) (f : Frame)
    → length bytes ≡ 48
    → All IsByte bytes
    → decode bytes ≡ ok f
    → encode f ≡ bytes
unfolding encode
encode-decode bytes f size h e =
    glue 4 0 bytes _ _ (word 0 4 frame_magic (sym a.magic) (omega (arith, size))) (
      glue 2 4 bytes _ _ (word 4 2 version (sym a.ours) (omega (arith, size))) (
        glue 1 6 bytes (kind_code f.kind ∷ []) _
          (ap (λ b. b ∷ []) (kind_from-eq (word_at 6 1 bytes) f.kind a.kind)
            ∙ byte_at 6 bytes (omega (arith, size)))
          (glue 1 7 bytes (f.flags ∷ []) _
            (ap (λ b. b ∷ []) a.flags ∙ byte_at 7 bytes (omega (arith, size)))
            (glue 8 8 bytes _ _ (word 8 8 f.transfer_id a.transfer_id (omega (arith, size))) (
              glue 8 16 bytes _ _ (word 16 8 f.offset a.offset (omega (arith, size))) (
                glue 4 24 bytes _ _ (word 24 4 f.slot a.slot (omega (arith, size))) (
                  glue 4 28 bytes _ _ (word 28 4 f.generation a.generation (omega (arith, size))) (
                    glue 4 32 bytes _ _ (word 32 4 f.len a.len (omega (arith, size))) (
                      glue 4 36 bytes _ _ (word 36 4 0 (sym a.padding) (omega (arith, size)))
                        (word 40 8 f.checksum a.checksum (omega (arith, size)) ∙ last))))))))))
  where
    a : Accepted bytes f
    a = decode-Accepted bytes f e

    word :
        (at n value : ℕ)
        → value ≡ word_at at n bytes
        → at + n ≤ length bytes
        → to_le_bytes n value ≡ take n (drop at bytes)
    word at n value same inside = ap (to_le_bytes n) same ∙ word_at-bytes at n bytes inside h

    last : take 8 (drop 40 bytes) ≡ drop 40 bytes
    last =
        let eight : length (drop 40 bytes) ≡ 8 = omega (arith, length-drop 40 bytes, size) in
        subst (λ n. take n (drop 40 bytes) ≡ drop 40 bytes) eight (take-length (drop 40 bytes))
