-- ===== src/Satoken/Keys/Tests.antt =====
-- Keys at a concrete configuration.
use acat_go_common.Common.{◌≡◌, refl, String, true}
use acat_go_common.Common.Int.{pos, negsuc}
use acat_go_common.Satoken.Keys.{Config, token_key, session_key}
use acat_go_common.Satoken.Keys.Separation.{token, keys_separate}

abbrev config : Config
config = record {
  token_name = "satoken";
  login_type = "login";
  timeout = pos 3600;
  active_timeout = negsuc 0;
  is_concurrent = true;
  is_share = true;
  token_style = "uuid";
}

prints :
    (token_key config "t:1" ≡ "satoken:login:token:t:1")
    × (session_key config "7" ≡ "satoken:login:session:7")
unfolding token_key session_key
prints = (refl, refl)

keys_separate_example : (token ≡ token) × (◌≡◌ {A = String} "t:1" "t:1")
keys_separate_example = keys_separate config token token "t:1" "t:1" refl
