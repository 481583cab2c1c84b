-- ===== src/StringTokenizer/Tests.antt =====
-- Texts that src/string_tokenizer.c takes apart.
use azure_c_shared_utility.Base.{◌≡◌, refl, some, [], codes, always}
use azure_c_shared_utility.Strings
use azure_c_shared_utility.Strings.{success, failure}
use azure_c_shared_utility.StringTokenizer.{
  StringToken, amount_of, step_of, copied, copy_token, is_delimiter, skip, strchr, end_of_token,
  get_next_token,
}
use azure_c_shared_utility.StringTokenizer.Laws.{get_next_token-token}

-- Behind "a=1".
abbrev connection : StringToken
connection = record { input = codes "a=1;;b=2;c"; position = 3 }

get_next_token-token_example :
    get_next_token always connection (some []) (some (codes ";")) ≡ record {
      status = success;
      token = record { input = codes "a=1;;b=2;c"; position = 9 };
      output = some (codes "b=2");
    }
get_next_token-token_example =
    get_next_token-token always connection [] 59 98 (codes ";;") (codes "=2") (some (codes "c"))
      (refl, (refl, _)) (refl, (refl, (refl, _))) refl

-- With two delimiters the token may have the second one in it.
abbrev two_delimiters : StringToken
two_delimiters = record { input = codes "a,b;c"; position = 0 }

token_with_delimiter :
    (get_next_token always two_delimiters (some []) (some (codes ";,"))).output ≡ some (codes "a,b")
unfolding get_next_token copy_token copied step_of amount_of end_of_token strchr skip is_delimiter
    Strings.copy_n
token_with_delimiter = refl
