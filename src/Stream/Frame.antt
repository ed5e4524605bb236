-- ===== src/Stream/Frame.antt =====
-- src/ipc/stream.rs: the descriptors on the wire.
pub mod RoundTrip
use prescient.Prelude.{
  ℕ, zero, suc, ◌+◌, List, [], ◌∷◌, ◌++◌, take, drop, Bool, true, false, ◌&&◌, ◌||◌, not, ◌==◌,
  Result, ok, err, if◌then◌else◌,
}
use prescient.Stream.{ErrorKind, IoResult, ◌>>=◌, ◌>>◌, refuse_if}
use prescient.Stream.ErrorKind.{invalid_input, invalid_data}
use prescient.Stream.Bytes.{to_le_bytes, from_le_bytes}

-- `Kind::Data`, `Kind::Released` and `Kind::Complete`.
pub data Kind : Type 0 where
  payload : Kind
  released : Kind
  complete : Kind

-- `kind as u8`, and `Kind::try_from`.
abbrev pub kind_code : Kind → ℕ
kind_code payload = 1
kind_code released = 2
kind_code complete = 3

unfoldable pub kind_from : ℕ → IoResult Kind
kind_from value =
    if value == 1
    then ok payload
    else if value == 2
    then ok released
    else if value == 3
    then ok complete
    else err invalid_data

pub record Frame : Type 0 where
  pub kind : Kind
  pub flags : ℕ
  pub transfer_id : ℕ
  pub offset : ℕ
  pub slot : ℕ
  pub generation : ℕ
  pub len : ℕ
  pub checksum : ℕ

abbrev pub frame_magic : ℕ
frame_magic = 0x50535354

abbrev pub version : ℕ
version = 2

abbrev pub frame_len : ℕ
frame_len = 48

-- `Frame::encode`: the fields stand one behind the other, and bytes 36 to 39 stay 0.
unfoldable pub encode : Frame → List ℕ
encode f =
    to_le_bytes 4 frame_magic
    ++ (to_le_bytes 2 version
        ++ ((kind_code f.kind ∷ f.flags ∷ [])
            ++ (to_le_bytes 8 f.transfer_id
                ++ (to_le_bytes 8 f.offset
                    ++ (to_le_bytes 4 f.slot
                        ++ (to_le_bytes 4 f.generation
                            ++ (to_le_bytes 4 f.len
                                ++ (to_le_bytes 4 0 ++ to_le_bytes 8 f.checksum))))))))

-- The word in `bytes[at..at + size]`.
abbrev pub word_at : ℕ → ℕ → List ℕ → ℕ
word_at at size bytes = from_le_bytes (take size (drop at bytes))

-- `Frame::decode` of 48 bytes. Four bytes are all 0 exactly where their word is.
unfoldable pub decode : List ℕ → IoResult Frame
unfolding kind_from
decode bytes = do
  refuse_if
      (not (word_at 0 4 bytes == frame_magic)
        || (not (word_at 4 2 bytes == version) || not (word_at 36 4 bytes == 0)))
      invalid_data
  kind ← kind_from (word_at 6 1 bytes)
  ok (record {
    kind = kind;
    flags = word_at 7 1 bytes;
    transfer_id = word_at 8 8 bytes;
    offset = word_at 16 8 bytes;
    slot = word_at 24 4 bytes;
    generation = word_at 28 4 bytes;
    len = word_at 32 4 bytes;
    checksum = word_at 40 8 bytes;
  })
