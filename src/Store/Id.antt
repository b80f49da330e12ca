-- ===== src/Store/Id.antt =====
-- src/store.rs: the text id of an event.
use satan_attrd.Prelude.{ℕ, zero, suc, ◌/◌, ◌%◌, String, str_append, ltb, if◌then◌else◌}
use satan_attrd.Prelude.Int.{ℤ, pos, negsuc}

abbrev digit : ℕ → String
digit zero = "0"
digit (suc zero) = "1"
digit (suc (suc zero)) = "2"
digit (suc (suc (suc zero))) = "3"
digit (suc (suc (suc (suc zero)))) = "4"
digit (suc (suc (suc (suc (suc zero))))) = "5"
digit (suc (suc (suc (suc (suc (suc zero)))))) = "6"
digit (suc (suc (suc (suc (suc (suc (suc zero))))))) = "7"
digit (suc (suc (suc (suc (suc (suc (suc (suc zero)))))))) = "8"
digit (suc (suc (suc (suc (suc (suc (suc (suc (suc n))))))))) = "9"

-- The decimal text of a number below 10 ^ (fuel + 1).
unfoldable pub decimal : ℕ → ℕ → String
decimal zero n = digit n
decimal (suc fuel) n =
    let front = decimal fuel (n / 10) in
    if ltb n 10 then digit n else str_append front (digit (n % 10))

-- An `i32` has at most 10 digits.
abbrev pub digits : ℕ → String
digits n = decimal 9 n

abbrev padded : ℕ → String
padded n =
    if ltb n 10
    then str_append "00" (digits n)
    else if ltb n 100
    then str_append "0" (digits n)
    else digits n

-- `{seq:03}`: the sign counts as one of the three places.
unfoldable pub seq_text : ℤ → String
unfolding decimal
seq_text (pos n) = padded n
seq_text (negsuc n) =
    if ltb (suc n) 10 then str_append "-0" (digits (suc n)) else str_append "-" (digits (suc n))

-- `i32::to_string`
unfoldable pub i32_text : ℤ → String
unfolding decimal
i32_text (pos n) = digits n
i32_text (negsuc n) = str_append "-" (digits (suc n))

unfoldable pub format_event_id : String → ℤ → String
unfolding seq_text
format_event_id run_id seq = str_append run_id (str_append ".attr" (seq_text seq))
