-- ===== src/Server/Examples/Logs.antt =====
-- A log of numbers: an append that dies, and a damaged file.
use agent_mesh.Common.{
  ℕ, ◌≡◌, ◌⊎◌, refl, none, some, List, [], ◌∷◌, ◌++◌, arith, string_eq, nat_eq, Result, ok, err,
}
use agent_mesh.Common.Bytes.{take, drop, be_bytes}
use agent_mesh.Server.Frame.{Wire, encode, check}
use agent_mesh.Server.Frame.Framing
use agent_mesh.Server.Log
use agent_mesh.Server.Log.{Log, LogError, Parsed, parse}
use agent_mesh.Server.Log.Total.{parse_total}
use agent_mesh.Server.Log.Parsing.{Written}
use agent_mesh.Server.Log.Recovery.{IsClean, Reopens, append-Reopens}

-- A number for a byte.
abbrev numbers : Wire ℕ
numbers = record {
  to_cbor = λ n. some (n ∷ []);
  from_cbor = λ b. elim b [ [] ↦ none | n ∷ rest ↦ some n ];
  hash = λ m. 1 ∷ 2 ∷ 3 ∷ 4 ∷ [];
}

numbers-IsFaithful : Framing.IsFaithful numbers
numbers-IsFaithful = record { reads_back = λ n b. λ h. ground arith; wide = λ m. ground arith }

-- The frame of 6.
abbrev six : List ℕ
six = 0 ∷ 0 ∷ 0 ∷ 1 ∷ 1 ∷ 2 ∷ 3 ∷ 4 ∷ 6 ∷ []

six_encoded : encode numbers 6 ≡ ok six
unfolding encode check be_bytes take
six_encoded = refl

-- A log of one frame, whose next append dies after five bytes.
abbrev doomed : Log
doomed = record { file = six; end = 9; cut = none; plan = some (Log.after_bytes 5); syncs = 0 }

doomed-IsClean : IsClean numbers doomed ((0, 6) ∷ [])
doomed-IsClean = record {
  held = Written.then 6 six six_encoded Written.nothing;
  ends = refl;
  whole = refl;
}

abbrev died : Log
died = record {
  file = six ++ (0 ∷ 0 ∷ 0 ∷ 1 ∷ 1 ∷ []);
  end = 9;
  cut = none;
  plan = none;
  syncs = 0;
}

doomed_dies : Log.append numbers doomed 6 ≡ (died, err LogError.io)
unfolding Log.append encode check be_bytes take drop
doomed_dies = refl

append-Reopens_example :
    Reopens numbers died.file ((0, 6) ∷ (9, 6) ∷ [])
    ⊎ ((Path (Result LogError (Unit {0})) (err LogError.io) (ok tt) → ⊥)
        × Reopens numbers died.file ((0, 6) ∷ []))
append-Reopens_example =
    append-Reopens numbers numbers-IsFaithful doomed died ((0, 6) ∷ []) 6 (err LogError.io)
      doomed-IsClean doomed_dies

parse_total_example :
    (r : Result LogError (Parsed ℕ)) × (parse numbers (0 ∷ 0 ∷ 0 ∷ 1 ∷ 9 ∷ []) ≡ some r)
parse_total_example = parse_total numbers (0 ∷ 0 ∷ 0 ∷ 1 ∷ 9 ∷ [])
