-- ===== src/Marketing/Snippet.antt =====
-- A snippet: its lines, as segments with the class of their colour.
use chis.Base.{String, Option, some, List}

-- The keys of `c`.
pub data Class : Type 0 where
  kw str fn cm num dim key plain : Class

pub record Segment : Type 0 where
  pub text : String
  pub cls : Option Class

abbrev pub segment : Class → String → Segment
segment c t = record { text = t; cls = some c }

pub record Tab : Type 0 where
  pub id : String
  pub label : String
  pub lines : List (List Segment)
