-- ===== src/CommandLine/Tests.antt =====
-- Runs of the client's command line in src/main.rs.
use btest_rs.Base.{
  ℕ, ◌≡◌, ◌-◌, ◌*◌, ◌⊎◌, refl, true, false, Option, none, some, Bytes, codes, [], ◌∷◌,
}
use btest_rs.Client.Handshake.{command}
use btest_rs.CommandLine.{run, plan, parse_bandwidth}
use btest_rs.CommandLine.Speeds.{IsFreeUpload, IsFreeDownload, IsEvenBoth, one_way_unpaced}

-- Numbers of one digit.
abbrev one_digit : Bytes → ℕ → Option ℕ
one_digit (d ∷ []) factor = some ((d - 48) * factor)
one_digit _ factor = none

five_mega : parse_bandwidth one_digit (codes " 5M ") ≡ some 5000000
unfolding parse_bandwidth
five_mega = refl

too_much : parse_bandwidth one_digit (codes "5g") ≡ none
unfolding parse_bandwidth
too_much = refl

upload : plan one_digit true false (some (codes "5k")) ≡ run 1 0 5000
unfolding plan
upload = refl

one_way_unpaced_example :
    let c = command false 1 0 5000 in
    IsFreeUpload 1500 c ⊎ (IsFreeDownload 1500 c ⊎ IsEvenBoth 1500 c)
one_way_unpaced_example =
    one_way_unpaced one_digit (some (codes "5k")) false true false 1500 1 0 5000 upload
