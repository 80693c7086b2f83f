-- ===== src/Antispam/Tests.antt =====
-- An account that is reported four times, and a sweep each hour.
use sobhemessenger.Common.{ℕ, ◌≡◌, refl, true, Option, none, some, List, [], ◌∷◌, arith}
use sobhemessenger.Antispam.{Score, is_restricted, record_weight, weight_report, shed}
use sobhemessenger.Antispam.Restriction.{Event, signals, sweeps, history, restriction_lasts}

abbrev ninety : Option Score
ninety = some (record { score = 90; reason = "reported"; restricted_until = none; updated_at = 0 })

abbrev later : List Event
later = sweeps 40000000000 20 ∷ signals 41000000000 2 "sending too fast" ∷ []

restriction_lasts_example :
    is_restricted 86400000000
      (history later (some (record_weight 1000000 weight_report "reported" ninety)))
    ≡ true
restriction_lasts_example =
    restriction_lasts 1000000 weight_report "reported" ninety later 86400000000 (omega arith)
      (omega arith) (omega arith, (omega arith, tt))

abbrev quiet : Score
quiet = record { score = 90; reason = ""; restricted_until = none; updated_at = 0 }

-- A sweep every 61 minutes takes a point each time, 23 in a day and not 20.
sheds : ℕ × ℕ
sheds = (shed 20 3660000000, shed 20 86400000000)

sheds-hourly : sheds ≡ (1, 20)
unfolding sheds shed
sheds-hourly = refl
