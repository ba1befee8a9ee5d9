-- ===== src/Gtests.antt =====
-- The tests of gtests/. `EXPECT_EQ` of gtest and the sleep of the operating system are parameters.
pub mod Broadcast
pub mod Basics
pub mod Feeds
pub mod Queries
use marko_cpp.Prelude.{ℤ, ℕ, Bool}
use marko_cpp.Os.{Os}

pub record Harness (os : Os) : Type 0 where
  -- `EXPECT_EQ` with the result of its comparison
  pub expect : Bool → os.World → os.World
  -- a sleep of so many microseconds
  pub nap : ℤ → os.World → os.World
