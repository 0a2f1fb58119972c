-- ===== src/Balancer/Ring/Hash.antt =====
-- crc32.ChecksumIEEE and the keys of the virtual nodes, fmt.Sprintf("%s:%d", node, i).
use Prim.Native.Nat.{bit_xor}
use discobox.Prelude.{
  Str, ℕ, zero, suc, ◌/◌, ◌%◌, ◌≡◌, refl, List, [], ◌∷◌, ◌++◌, if◌then◌else◌, ◌==◌, nat_eq, text,
  decimal,
}

-- One bit of the reflected polynomial 0xEDB88320.
crc_bit : ℕ → ℕ
crc_bit crc = if crc % 2 == 1 then bit_xor (crc / 2) 0xEDB88320 else crc / 2

crc_bits : ℕ → ℕ → ℕ
unfolding crc_bit
crc_bits zero crc = crc
crc_bits (suc n) crc = crc_bits n (crc_bit crc)

crc_bytes : List ℕ → ℕ → ℕ
unfolding crc_bits
crc_bytes [] crc = crc
crc_bytes (b ∷ bs) crc = crc_bytes bs (crc_bits 8 (bit_xor crc b))

-- ch.hash
unfoldable pub hash : Str → ℕ
unfolding crc_bytes
hash key = bit_xor (crc_bytes key 0xFFFFFFFF) 0xFFFFFFFF

unfoldable pub virtual_key : Str → ℕ → Str
unfolding decimal
virtual_key node i = node ++ b':' ∷ decimal i

-- The check value of CRC-32/ISO-HDLC.
hash_check : hash (text "123456789") ≡ 0xCBF43926
unfolding hash
hash_check = refl

virtual_key_test : virtual_key (text "node-a") 149 ≡ text "node-a:149"
unfolding virtual_key
virtual_key_test = refl
