-- ===== src/Tests/Codecs.antt =====
-- Arrays as their bytes: an instance of what the raw binary format relies on.
use native.Mathlib.Nat.{mul_assoc, add-mul}
use kv_cache_tier_persistenc.Prelude.{
  ℕ, zero, suc, ◌*◌, ◌%◌, ◌≡◌, refl, ap, ◌∙◌, List, [], ◌∷◌, ◌++◌, arith, length, take, drop,
  length-append, take-append, drop-append,
}
use kv_cache_tier_persistenc.Result.{ok}
use kv_cache_tier_persistenc.Dict.Bytes.{Bytes}
use kv_cache_tier_persistenc.Serialization.Raw.{Codec, itemsize}
use kv_cache_tier_persistenc.Serialization.Raw.Payload.{IsCodec, AllRows, AllHeads}
use kv_cache_tier_persistenc.Serialization.Compressed.{IsCompressor, no_compressor}

abbrev row_bytes : List (List ℕ) → Bytes
row_bytes [] = []
row_bytes (row ∷ rows) = row ++ row_bytes rows

abbrev cell_bytes : List (List (List ℕ)) → Bytes
cell_bytes [] = []
cell_bytes (rows ∷ heads) = row_bytes rows ++ cell_bytes heads

abbrev to_rows : ℕ → ℕ → Bytes → List (List ℕ)
to_rows zero width b = []
to_rows (suc n) width b = take width b ∷ to_rows n width (drop width b)

abbrev to_cells : ℕ → ℕ → ℕ → Bytes → List (List (List ℕ))
to_cells zero n width b = []
to_cells (suc heads) n width b =
    to_rows n width (take (n * width) b) ∷ to_cells heads n width (drop (n * width) b)

abbrev pub codec : Codec
codec = record {
  crc32 = λ b. length b % 4294967296;
  tobytes = λ t. cell_bytes t.cells;
  frombuffer = λ d heads n head_dim b. ok (record {
    dtype = d;
    heads = heads;
    tokens = n;
    head_dim = head_dim;
    cells = to_cells heads n (head_dim * itemsize d) b;
  });
}

length-row_bytes :
    (n width : ℕ) (rows : List (List ℕ))
    → length rows ≡ n
    → AllRows width rows
    → length (row_bytes rows) ≡ n * width
length-row_bytes zero width [] e h = omega arith
length-row_bytes zero width (row ∷ rows) e h = absurd (omega (arith, e))
length-row_bytes (suc n) width [] e h = absurd (omega (arith, e))
length-row_bytes (suc n) width (row ∷ rows) e h = omega (
  arith,
  length-append row (row_bytes rows),
  h.0,
  length-row_bytes n width rows (omega (arith, e)) h.1,
  add-mul 1 n width,
)

length-cell_bytes :
    (heads n width : ℕ) (cells : List (List (List ℕ)))
    → length cells ≡ heads
    → AllHeads n width cells
    → length (cell_bytes cells) ≡ heads * (n * width)
length-cell_bytes zero n width [] e h = omega arith
length-cell_bytes zero n width (rows ∷ cells) e h = absurd (omega (arith, e))
length-cell_bytes (suc heads) n width [] e h = absurd (omega (arith, e))
length-cell_bytes (suc heads) n width (rows ∷ cells) e h = omega (
  arith,
  length-append (row_bytes rows) (cell_bytes cells),
  length-row_bytes n width rows h.0 h.1,
  length-cell_bytes heads n width cells (omega (arith, e)) h.2,
  add-mul 1 heads (n * width),
)

to_rows-row_bytes :
    (n width : ℕ) (rows : List (List ℕ))
    → length rows ≡ n
    → AllRows width rows
    → to_rows n width (row_bytes rows) ≡ rows
to_rows-row_bytes zero width [] e h = refl
to_rows-row_bytes zero width (row ∷ rows) e h = absurd (omega (arith, e))
to_rows-row_bytes (suc n) width [] e h = absurd (omega (arith, e))
to_rows-row_bytes (suc n) width (row ∷ rows) e h =
    rw (take-append width row (row_bytes rows) h.0, drop-append width row (row_bytes rows) h.0)
      (ap (λ r. row ∷ r) (to_rows-row_bytes n width rows (omega (arith, e)) h.1))

to_cells-cell_bytes :
    (heads n width : ℕ) (cells : List (List (List ℕ)))
    → length cells ≡ heads
    → AllHeads n width cells
    → to_cells heads n width (cell_bytes cells) ≡ cells
to_cells-cell_bytes zero n width [] e h = refl
to_cells-cell_bytes zero n width (rows ∷ cells) e h = absurd (omega (arith, e))
to_cells-cell_bytes (suc heads) n width [] e h = absurd (omega (arith, e))
to_cells-cell_bytes (suc heads) n width (rows ∷ cells) e h =
    let size = length-row_bytes n width rows h.0 h.1 in
    rw
      (
        take-append (n * width) (row_bytes rows) (cell_bytes cells) size,
        drop-append (n * width) (row_bytes rows) (cell_bytes cells) size,
        to_rows-row_bytes n width rows h.0 h.1,
      )
      (ap (λ r. rows ∷ r) (to_cells-cell_bytes heads n width cells (omega (arith, e)) h.2))

pub codec-IsCodec : IsCodec codec
codec-IsCodec = record {
  size = λ t h.
      length-cell_bytes t.heads t.tokens (t.head_dim * itemsize t.dtype) t.cells h.0 h.1
      ∙ omega (
        arith,
        mul_assoc (t.heads * t.tokens) t.head_dim (itemsize t.dtype),
        mul_assoc t.heads t.tokens (t.head_dim * itemsize t.dtype),
      );
  reads = λ t h.
      ap (λ x. ok (record t { cells = x }))
        (to_cells-cell_bytes t.heads t.tokens (t.head_dim * itemsize t.dtype) t.cells h.0 h.1);
  crc = λ b. omega arith;
}

pub no_compressor-IsCompressor : IsCompressor no_compressor
no_compressor-IsCompressor = record { decompresses = λ b. refl; frame = λ b h. h }
