-- ===== src/Str.antt =====
-- The methods of Python's str that the modules call.
mod Basic
mod Space
mod Digit
mod Parts
mod Decimal
pub mod Search
pub mod Words
pub mod Joined
pub mod Numerals
pub mod Regex
pub use Basic.{Text, codes, ==_iff, ==_refl, ==_of_ne}
unfoldable pub use Basic.{◌==◌, text_leb}
unfoldable pub use Space.{is_space, split_from, split, lstrip, rstrip, strip}
unfoldable pub use Digit.{decimal_value, is_digit_char, is_digit, int}
pub use Digit.{max_str_digits}
pub use Space.{flush}
pub use Parts.{onto_first}
unfoldable pub use Parts.{join, split_on, starts_with, contains}
unfoldable pub use Decimal.{decimal}
pub use Decimal.{decimal-all}
