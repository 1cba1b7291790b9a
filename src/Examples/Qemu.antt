-- ===== src/Examples/Qemu.antt =====
-- The reference that runs QEMU, at a server for the commands that write memory. Its numbers are
-- single characters.
use model_lib.Base.{ℕ, ◌+◌, ◌*◌, ◌≡◌, refl, ap, ap₂, true, some, List, [], ◌∷◌, arith}
use model_lib.Base.Bits.{bit_and_mask}
use model_lib.Base.Memory.{Bytes}
use model_lib.Outcome.{ok}
use model_lib.QemuDiff.{Protocol, encode_bytes, gdb_memcpy_to_qemu}
use model_lib.QemuDiff.Pieces.{store_bytes, IsServer, gdb_memcpy_to_qemu-stores}

abbrev decode_pairs : List ℕ → List ℕ
decode_pairs [] = []
decode_pairs (high ∷ []) = []
decode_pairs (high ∷ low ∷ rest) = (high * 16 + low) ∷ decode_pairs rest

abbrev ok_reply : List ℕ
ok_reply = b'O' ∷ b'K' ∷ []

abbrev serve : List ℕ → Bytes → List ℕ × Bytes
serve (m ∷ o ∷ x ∷ dest ∷ comma ∷ len ∷ colon ∷ text) memory =
    (ok_reply, store_bytes dest (decode_pairs text) memory)
serve command memory = ([], memory)

abbrev protocol : Protocol Bytes
protocol = record {
  exchange = serve;
  hex_encode = λ n. n;
  decode_hex_str = λ s. 0;
  hex = λ n. n ∷ [];
}

decode_pairs-encode_bytes : (bs : List ℕ) → decode_pairs (encode_bytes protocol bs) ≡ bs
decode_pairs-encode_bytes [] = refl
decode_pairs-encode_bytes (b ∷ bs) =
    ap₂ (λ (v : ℕ) (l : List ℕ). v ∷ l) (omega (arith, bit_and_mask 4 b))
      (decode_pairs-encode_bytes bs)

protocol-IsServer : IsServer protocol (λ m. m)
protocol-IsServer d bs c short inside =
    (refl, ap (λ (l : List ℕ). store_bytes d l c) (decode_pairs-encode_bytes bs))

gdb_memcpy_to_qemu-stores_example :
    (c' : Bytes) × (gdb_memcpy_to_qemu protocol 0x7c00 (0xfa ∷ 0x31 ∷ 0xc0 ∷ []) (λ i. 0)
      ≡ ok (some (true, c')))
    × (c' ≡ store_bytes 0x7c00 (0xfa ∷ 0x31 ∷ 0xc0 ∷ []) (λ i. 0))
gdb_memcpy_to_qemu-stores_example =
    gdb_memcpy_to_qemu-stores protocol (λ m. m) 0x7c00 (0xfa ∷ 0x31 ∷ 0xc0 ∷ []) (λ i. 0)
      protocol-IsServer (omega arith) (omega arith)
