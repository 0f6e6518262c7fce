-- ===== src/Text.antt =====
-- Go strings as lists of bytes, with what the program uses of the packages strings, strconv and
-- net/url. Letter case and white space are those of ASCII, on which Go takes its ASCII fast path.
pub mod Equal
pub mod Case
pub mod Trim
pub mod Split
pub mod Number
pub mod Escape
pub use Equal.{Text, codes}
unfoldable pub use Equal.{text_eq, has_prefix, trim_prefix, trim_suffix}
pub use Equal.{text_eq_iff, text_eq_refl}
unfoldable pub use Case.{to_lower, to_upper}
unfoldable pub use Trim.{is_space, trim_space, trim_right, trim_left}
unfoldable pub use Split.{cut, split, join, fields}
pub use Number.{
  ℤ, pos, negsuc, is_zero, is_pos, is_digit, read_decimal-decimal, decimal-digits, decimal-ne,
}
unfoldable pub use Number.{itoa, decimal, read_decimal}
unfoldable pub use Escape.{path_escape}
