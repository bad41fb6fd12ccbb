-- ===== src/Issues.antt =====
-- firmware/lib/rt_logic/issue_buffer.h: the payloads of issues that had no client to go to. A payload is
-- the list of its bytes.
pub mod Kept
mod Tests
use rotation_target.Common.{
  ℕ, List, [], ◌∷◌, ◌++◌, length, drop, leb, ◌==◌, Bool, true, false, if◌then◌else◌,
}

pub record IssueBuffer : Type 0 where
  pub capacity : ℕ
  pub entries : List (List ℕ)

abbrev pub new : ℕ → IssueBuffer
new capacity = record { capacity = capacity; entries = [] }

-- IssueBuffer::push; erase(begin()) drops the oldest.
unfoldable pub push : IssueBuffer → List ℕ → IssueBuffer
push b payload = if b.capacity == 0 then b else record b {
  entries =
      (if leb b.capacity (length b.entries) then drop 1 b.entries else b.entries) ++ payload ∷ [];
}

-- The loop of issue_array_json: 44 is the comma.
pub array_from : Bool → List (List ℕ) → List ℕ
array_from first [] = []
array_from first (p ∷ ps) = (if first then [] else 44 ∷ []) ++ (p ++ array_from false ps)

-- issue_array_json: 91 and 93 are the brackets.
unfoldable pub issue_array_json : List (List ℕ) → List ℕ
issue_array_json payloads = 91 ∷ (array_from true payloads ++ 93 ∷ [])
