-- ===== src/Error.antt =====
-- `InterpolError` of interpol-rs/src/lib.rs: its kinds, its `Display`, and the three conversions
-- that `?` makes. The messages of the errors that come from outside are carried along as texts.
use interpol.Base.{◌++◌, Text, codes}

pub data InterpolErrorKind : Type 0 where
  io try_reserve derive_builder : InterpolErrorKind

pub record InterpolError : Type 0 where
  pub kind : InterpolErrorKind
  pub reason : Text

abbrev prefix : InterpolErrorKind → Text
prefix InterpolErrorKind.io = codes "I/O error: "
prefix InterpolErrorKind.try_reserve = codes "Memory allocation error: "
prefix InterpolErrorKind.derive_builder = codes "Builder error: "

-- `Display`
unfoldable pub show_error : InterpolError → Text
show_error e = prefix e.kind ++ e.reason

-- What the standard library reports of a failed reservation, and its message.
pub data TryReserveError : Type 0 where
  capacity_overflow alloc_error : TryReserveError

unfoldable pub try_reserve_to_string : TryReserveError → Text
try_reserve_to_string TryReserveError.capacity_overflow =
    codes "memory allocation failed because the computed capacity exceeded the collection's maximum"
try_reserve_to_string TryReserveError.alloc_error =
    codes "memory allocation failed because the memory allocator returned an error"

-- A `std::io::Error`, as its message.
pub record IoError : Type 0 where
  pub message : Text

unfoldable pub from_io : IoError → InterpolError
from_io error = record { kind = InterpolErrorKind.io; reason = error.message }

unfoldable pub from_try_reserve : TryReserveError → InterpolError
from_try_reserve error = record {
  kind = InterpolErrorKind.try_reserve;
  reason = try_reserve_to_string error;
}

-- `impl_builder_error!`, for a builder's error with this message.
unfoldable pub from_builder_error : Text → InterpolError
from_builder_error message = record { kind = InterpolErrorKind.derive_builder; reason = message }
