-- ===== src/Routes/Events/Ids.antt =====
-- Which ids of a request for events get to Redis as the bounds of a range.
use shadowroller.Common.{◌≡◌, ◌≢◌, ◌⊎◌, String}
use shadowroller.Event.Scan.{AllDigits}

-- No id, or one that is only decimal digits.
abbrev pub IsPlain : String → Type 0
IsPlain id = (id ≡ "") ⊎ (AllDigits id × (id ≢ ""))
