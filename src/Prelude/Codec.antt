-- ===== src/Prelude/Codec.antt =====
-- Texts in a row, each behind its length, for the stores of texts that runs of the bot and the API are on.
use sznouns.Prelude.{◌≡◌, refl, ap, [], ◌∷◌, ◌++◌, length, take, drop, Text}

-- A part of a text in front of the rest.
abbrev pub put : Text → Text → Text
put t rest = length t ∷ t ++ rest

abbrev pub read : Text → Text
read [] = []
read (n ∷ t) = take n t

abbrev pub after : Text → Text
after [] = []
after (n ∷ t) = drop n t

take_all : (t rest : Text) → take (length t) (t ++ rest) ≡ t
take_all [] rest = refl
take_all (c ∷ t) rest = ap (◌∷◌ c) (take_all t rest)

drop_all : (t rest : Text) → drop (length t) (t ++ rest) ≡ rest
drop_all [] rest = refl
drop_all (c ∷ t) rest = drop_all t rest

pub read-put : (t rest : Text) → read (put t rest) ≡ t
read-put t rest = take_all t rest

pub after_put : (t rest : Text) → after (put t rest) ≡ rest
after_put t rest = drop_all t rest
