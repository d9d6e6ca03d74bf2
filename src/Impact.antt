-- ===== src/Impact.antt =====
-- The impact of a change on a repository: src/change-impact.mjs. `Paths` is what the program takes from
-- `node:path` and from the text functions of its platform.
pub mod Fields
pub mod Request
pub mod Coverage
pub mod Analysis
use bounded_agent_harness.Prelude.{String, Bool}

pub record Paths : Type 0 where
  pub is_absolute : String → Bool
  pub extname : String → String
  pub to_lower_case : String → String
