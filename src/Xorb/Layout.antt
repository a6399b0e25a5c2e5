-- ===== src/Xorb/Layout.antt =====
-- What metadata has to satisfy to describe the chunks of a xorb.
use openxet.Base.{List, Result, [], err, length, ok, refl, ℕ, ◌++◌, ◌+◌, ◌<◌, ◌∷◌, ◌≡◌, ◌≤◌}
use openxet.Xorb.{XorbInfo, u32_mod, header_length, Text}

-- Cumulative ends that grow by at least `least` at each step and fit 32 bits.
abbrev pub Grows : ℕ → ℕ → List ℕ → Type 0
Grows least prev [] = Unit {0}
Grows least prev (end ∷ ends) = (prev + least ≤ end) × (end < u32_mod) × Grows least end ends

-- As many hashes and offsets as chunks, and room for a header in each frame.
pub record IsFramed (info : XorbInfo) : Type 0 where
  pub hashes : length info.chunk_hashes ≡ info.num_chunks
  pub boundaries : length info.chunk_boundary_offsets ≡ info.num_chunks
  pub unpacked : length info.unpacked_chunk_offsets ≡ info.num_chunks
  pub frames : Grows header_length 0 info.chunk_boundary_offsets

-- Metadata that was read is framed.
abbrev pub Framed : Result Text XorbInfo → Type 0
Framed (ok info) = IsFramed info
Framed (err e) = Unit {0}

-- The last of some cumulative ends.
abbrev pub last_end : ℕ → List ℕ → ℕ
last_end prev [] = prev
last_end prev (end ∷ ends) = last_end end ends

pub Grows-append :
    (least prev : ℕ) (ends : List ℕ) (end : ℕ)
    → Grows least prev ends
    → last_end prev ends + least ≤ end
    → end < u32_mod
    → Grows least prev (ends ++ end ∷ [])
Grows-append least prev [] end g h k = (h, k, tt)
Grows-append least prev (e ∷ ends) end (a, b, g) h k = (a, b, Grows-append least e ends end g h k)

pub last_end-append : (prev : ℕ) (ends : List ℕ) (end : ℕ) → last_end prev (ends ++ end ∷ []) ≡ end
last_end-append prev [] end = refl
last_end-append prev (e ∷ ends) end = last_end-append e ends end
