-- ===== src/Tests/Limits.antt =====
-- The reduction of the limits at concrete ceilings.
use touchmyapi.Common.{◌≡◌, refl, some, none, ok, arith}
use touchmyapi.Policy.Ceiling.{LimitCeiling, PartialCeiling, min_ceiling}
use touchmyapi.Policy.Limits.{reduce_limits}
use touchmyapi.Policy.Limits.Bounds.{IsReduction, IsSafeCeiling, reduce_limits-IsReduction}
use touchmyapi.Policy.Limits.Encode.{encode_input, IsSafeRequest, reduce_limits-encode_input}

abbrev low : LimitCeiling
low = record { duration_s = 30; concurrency = 1; rate_per_min = 60; credits = 5 }

abbrev high : LimitCeiling
high = record { duration_s = 300; concurrency = 4; rate_per_min = 10; credits = 9 }

abbrev request : PartialCeiling
request = record { duration_s = none; concurrency = none; rate_per_min = some 3; credits = none }

low_safe : IsSafeCeiling low
low_safe = ground arith

high_safe : IsSafeCeiling high
high_safe = ground arith

request_safe : IsSafeRequest request
request_safe = ground arith

reduce_limits-encode_input_example :
    reduce_limits (encode_input 0 low high high high (some request))
    ≡ ok (min_ceiling low high high high (some request))
reduce_limits-encode_input_example =
    reduce_limits-encode_input 0 low high high high (some request) low_safe high_safe high_safe
      high_safe request_safe

reduced :
    reduce_limits (encode_input 0 low high high high (some request))
    ≡ ok (min_ceiling low high high high (some request))
reduced =
    reduce_limits-encode_input 0 low high high high (some request) low_safe high_safe high_safe
      high_safe request_safe

reduce_limits-IsReduction_example :
    IsReduction
      (encode_input 0 low high high high (some request))
      (min_ceiling low high high high (some request))
reduce_limits-IsReduction_example =
    reduce_limits-IsReduction (encode_input 0 low high high high (some request))
      (min_ceiling low high high high (some request)) reduced

reduced_least :
    min_ceiling low high high high (some request)
    ≡ record { duration_s = 30; concurrency = 1; rate_per_min = 3; credits = 5 }
unfolding min_ceiling
reduced_least = refl
