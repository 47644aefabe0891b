-- ===== src/Tests/Responses.antt =====
-- Headers and responses.
use go_download.Base.{
  ◌≡◌, refl, pos, negsuc, true, false, ◌&&◌, not, ◌==◌, ◌+ℤ◌, some, [], ltb_ℤ, Bytes, codes, arith,
  length,
}
use go_download.State.{validator}
use go_download.Response.{
  Reply, parse_content_range, mode_of, plan, check_single_status, status_partial_content,
}
use go_download.Response.Ranges.{IsDecimal, content_range, parse_content_range-decimal}
use go_download.Response.Plans.{BeginsAtZero, plan-multipart}

abbrev zero_text : Bytes
zero_text = codes "0"

abbrev last_text : Bytes
last_text = codes "1023"

abbrev size_text : Bytes
size_text = codes "4096"

zero_text-IsDecimal : IsDecimal zero_text
zero_text-IsDecimal = record { nonempty = ground arith; digits = ground arith; fits = ground arith }

last_text-IsDecimal : IsDecimal last_text
last_text-IsDecimal = record { nonempty = ground arith; digits = ground arith; fits = ground arith }

size_text-IsDecimal : IsDecimal size_text
size_text-IsDecimal = record { nonempty = ground arith; digits = ground arith; fits = ground arith }

parse_content_range-decimal_example :
    (parse_content_range (content_range zero_text last_text size_text)
      ≡ some (record { start = pos 0; end = pos 1023; total = pos 4096 }))
    × (parse_content_range (content_range zero_text last_text (codes "*"))
        ≡ some (record { start = pos 0; end = pos 1023; total = negsuc 0 }))
parse_content_range-decimal_example =
    parse_content_range-decimal zero_text last_text size_text zero_text-IsDecimal
      last_text-IsDecimal size_text-IsDecimal

abbrev first_part : Reply
first_part = record {
  status = 206;
  content_range = codes "bytes 0-1023/4096";
  content_length = pos 1024;
  etag = codes "\"a\"";
  last_modified = [];
}

abbrev whole_body : Reply
whole_body = record {
  status = 206;
  content_range = codes "bytes 0-4095/4096";
  content_length = pos 4096;
  etag = [];
  last_modified = [];
}

reply_defs : Unit {0}
unfolding plan mode_of parse_content_range validator check_single_status ◌+ℤ◌
reply_defs = tt

first_part-multipart : (plan false first_part).multipart ≡ true
unfolding reply_defs
first_part-multipart = refl

plan-multipart_example :
    BeginsAtZero (plan false first_part).total first_part
    × (first_part.status ≡ status_partial_content)
    × (ltb_ℤ (pos 0) (plan false first_part).total ≡ true)
    × ((plan false first_part).initial_usable ≡ true)
    × (((length (validator first_part.etag first_part.last_modified) == 0) && not false) ≡ false)
plan-multipart_example = plan-multipart false first_part first_part-multipart

whole_body-single : (plan false whole_body).multipart ≡ false
unfolding reply_defs
whole_body-single = refl

whole_body-usable : (plan false whole_body).initial_usable ≡ true
unfolding reply_defs
whole_body-usable = refl
