-- ===== src/Ethabi.antt =====
-- The tokens of the `ethabi` crate that the channels build and take apart: the inner values of a
-- log or a message. `other` stands for the variants that no code of the bridge names.
use snowbridge.Shared.{ℕ}
use snowbridge.Shared.Bytes.{Bytes, H160}

mutual
  pub data Token : Type 0 where
    address : H160 → Token
    uint : ℕ → Token
    bytes : Bytes → Token
    tuple : Tokens → Token
    other : ℕ → Token

  pub data Tokens : Type 0 where
    end : Tokens
    token : Token → Tokens → Tokens
