-- ===== src/Store.antt =====
-- pkg/store: what a client keeps between sessions.
pub mod Memory
use gocoon.Common.{ℕ, Bytes}

-- Addresses and request ids are their bytes, and a time is a number.
pub record RootSnapshot : Type 0 where
  pub raw_tlo : Bytes
  pub block_seqno : ℕ
  pub fetched_at : ℕ

pub record ClientScSnapshot : Type 0 where
  pub state : ℕ
  pub balance : ℕ
  pub stake : ℕ
  pub tokens_used : ℕ
  pub unlock_ts : ℕ
  pub secret_hash : Bytes
  pub fetched_at : ℕ

pub record SignedPayment : Type 0 where
  pub blob : Bytes
  pub stored_at : ℕ
