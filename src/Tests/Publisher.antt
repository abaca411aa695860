-- ===== src/Tests/Publisher.antt =====
-- The theorems on a publisher's session of mbroker/mbroker.c, at the example's file "a": the line
-- "hi" comes with the space that a publisher writes first.
use t_cnico_file_system_pt.Prelude.{ℕ, List, [], ◌∷◌}
use t_cnico_file_system_pt.Broker.{World}
use t_cnico_file_system_pt.Tests.Broker.{world}

-- The three bytes of the file.
abbrev old : List ℕ
old = 7 ∷ 8 ∷ 9 ∷ []

abbrev hosting : World
hosting = record world { published = λ path. ((32 ∷ 57 ∷ 32 ∷ 104 ∷ 105 ∷ 10 ∷ 0 ∷ []) ∷ []) }
