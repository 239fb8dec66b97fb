-- ===== src/Types/Crypto.antt =====
-- The hash functions and the signature check come from the crates sha3, blake3 and ml-dsa, which
-- are not part of the repository: the code takes them as given, and so do the definitions here.
use primus_project.Base.{Bool}
use primus_project.Machine.Word.{Bytes}

pub record Hashes : Type 0 where
  pub sha3 : Bytes → Bytes
  pub blake3 : Bytes → Bytes

-- `verify pk digest signature`
abbrev pub Verifier : Type 0
Verifier = Bytes → Bytes → Bytes → Bool
