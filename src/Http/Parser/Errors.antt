-- ===== src/Http/Parser/Errors.antt =====
-- The texts of the parsers' errors, and whether there is one.

pub data HttpError : Type 0 where
  no_method unknown_method no_version invalid_target invalid_authority invalid_target_character
        invalid_version :
      HttpError
  header_line_too_long invalid_header_line invalid_header_name invalid_header_value
        conflicting_lengths too_many_headers :
      HttpError
  encoding_and_length not_one_host connect_with_encoding connect_with_content unsupported_encoding
        invalid_length :
      HttpError
  chunk_line_too_long chunk_size_overflow empty_chunk_size chunk_size_exceeds_maximum
        invalid_extension missing_crlf :
      HttpError
  trailer_line_too_long invalid_trailer : HttpError
  invalid_status_line invalid_status_code status_line_too_long invalid_line_ending
        closed_before_complete :
      HttpError
