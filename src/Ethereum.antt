-- ===== src/Ethereum.antt =====
-- What the indexer uses of `go-ethereum`: addresses and hashes are byte arrays, and these
-- functions work on their bytes. `IsLawful` is what its documentation says of the texts.
use agro_diamond_compliance.Prelude.{◌≡◌, replicate}
use agro_diamond_compliance.Bytes.{Bytes, IsPlain}

pub record Ethereum : Type 0 where
  -- `common.Address.Hex`
  pub hex : Bytes → Bytes
  -- `common.Hash.Hex`
  pub hash_hex : Bytes → Bytes
  -- `common.BytesToAddress`
  pub bytes_to_address : Bytes → Bytes
  -- `common.HexToAddress`
  pub hex_to_address : Bytes → Bytes
  -- `crypto.Keccak256Hash`
  pub keccak256_hash : Bytes → Bytes

-- The texts are hexadecimal digits behind `0x`, and tell the addresses apart.
pub record IsLawful (eth : Ethereum) : Type 0 where
  pub hex-IsPlain : (a : Bytes) → IsPlain (eth.hex a)
  pub hash_hex-IsPlain : (h : Bytes) → IsPlain (eth.hash_hex h)
  pub hex_injective : (a b : Bytes) → eth.hex a ≡ eth.hex b → a ≡ b

-- `common.Address{}`
abbrev pub zero_address : Bytes
zero_address = replicate 20 0
