-- ===== src/Profile/Tests.antt =====
-- Concrete runs of the profiles, and the theorems at concrete inputs.
use disguise.Common.{◌≡◌, refl}
use disguise.Common.Fixed.{fixed}
use disguise.Profile.{
  Profile, LengthDraws, web_browsing, file_download, get_profile, get_profile_type, sample, lookup,
  clamp,
}
use disguise.Profile.Draws.{get_profile_type-get_profile, wanted}

abbrev web : Profile
web = get_profile web_browsing

-- The first mode is drawn: 100 + 2 * 20.
abbrev draws : LengthDraws
draws = record { choice = 300; uniform = 100; normal = 2000 }

wanted-web : wanted web draws ≡ 140
unfolding wanted get_profile lookup sample clamp
wanted-web = refl

get_profile_type-get_profile_example : get_profile_type (get_profile file_download) ≡ file_download
get_profile_type-get_profile_example = get_profile_type-get_profile file_download
