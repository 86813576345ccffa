-- ===== src/Mimic/Generator/Examples.antt =====
-- Decoys under a sum of zeros.
use mirage_chaff.Base.{ℕ, zero, ◌≡◌, List, length, replicate, length-replicate}
use mirage_chaff.Base.Text.{codes}
use mirage_chaff.Mimic.Generator.{Shape, js, generate}
use mirage_chaff.Mimic.Generator.Length.{decoy_length, length-generate}

abbrev zeros : List ℕ → List ℕ
zeros b = replicate 32 0

zeros_32 : (b : List ℕ) → length (zeros b) ≡ 32
zeros_32 b = length-replicate 32 zero

abbrev script : Shape
script = record { content_type = codes "text/javascript"; size = 40; media = js }

length-generate_example :
    length (generate zeros (codes "u") script) ≡ decoy_length zeros zeros_32 script
length-generate_example = length-generate zeros zeros_32 (codes "u") script
