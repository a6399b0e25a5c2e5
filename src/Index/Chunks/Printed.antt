-- ===== src/Index/Chunks/Printed.antt =====
-- A codec of layouts, for the tests. It stands in for `serde_json`, which
-- crates/server/src/storage/index/sqlite_index.rs calls.
use openxet.Base.{
  List, Option, [], ap, append-nil, append_assoc, arith, none, refl, some, suc, zero, ◌++◌, ◌∙◌,
  ◌∷◌, ◌≡◌,
}
use openxet.Text.{Text}
use openxet.Index.{XorbChunk, XorbLayout}
use openxet.Index.Chunks.{Json}

-- A codec: each byte of a hash one higher, a 0 behind it, and the two sizes.
abbrev pub print_hash : Text → Text → Text
print_hash [] rest = 0 ∷ rest
print_hash (b ∷ h) rest = suc b ∷ print_hash h rest

abbrev pub print_chunks : List XorbChunk → Text
print_chunks [] = []
print_chunks (c ∷ cs) =
    print_hash c.chunk_hash (c.unpacked_size ∷ c.compressed_size ∷ print_chunks cs)

prepend : XorbChunk → Option (List XorbChunk) → Option (List XorbChunk)
prepend c none = none
prepend c (some cs) = some (c ∷ cs)

pub read_chunks : Text → Text → Option (List XorbChunk)
unfolding prepend
read_chunks seen [] = some []
read_chunks seen (suc b ∷ s) = read_chunks (seen ++ b ∷ []) s
read_chunks seen (zero ∷ u ∷ c ∷ s) =
    prepend (record { chunk_hash = seen; unpacked_size = u; compressed_size = c })
      (read_chunks [] s)
read_chunks seen (zero ∷ _) = none

read_chunks-print_hash :
    (seen h rest : Text) → read_chunks seen (print_hash h rest) ≡ read_chunks (seen ++ h) (0 ∷ rest)
unfolding read_chunks
read_chunks-print_hash seen [] rest = rw (append-nil seen) refl
read_chunks-print_hash seen (b ∷ h) rest =
    read_chunks-print_hash (seen ++ b ∷ []) h rest
    ∙ ap (λ s. read_chunks s (0 ∷ rest)) (append_assoc seen (b ∷ []) h)

read_chunks-print_chunks : (cs : List XorbChunk) → read_chunks [] (print_chunks cs) ≡ some cs
unfolding read_chunks
read_chunks-print_chunks [] = refl
read_chunks-print_chunks (c ∷ cs) =
    read_chunks-print_hash [] c.chunk_hash (c.unpacked_size ∷ c.compressed_size ∷ print_chunks cs)
    ∙ ap (prepend c) (read_chunks-print_chunks cs)

unfoldable pub read_layout : Text → Option XorbLayout
read_layout [] = none
read_layout (n ∷ s) = elim (read_chunks [] s) [
  | none ↦ none
  | some cs ↦ some (record { num_bytes_on_disk = n; chunks = cs })
]

pub read_layout_printed :
    (l : XorbLayout) → read_layout (l.num_bytes_on_disk ∷ print_chunks l.chunks) ≡ some l
unfolding read_layout
read_layout_printed l = ground (arith, read_chunks-print_chunks l.chunks)

abbrev pub json : Json
json = record {
  to_string = λ l. l.num_bytes_on_disk ∷ print_chunks l.chunks;
  from_str = read_layout;
  from_str-to_string = read_layout_printed;
}
