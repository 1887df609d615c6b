-- ===== src/Structs.antt =====
-- The structures of structs.h and com.h. A `char *` is the array that it points to, from the byte
-- pointed to onwards; a null pointer is `none`.
use snuffin.Common.{List, Option}
use snuffin.Common.Int.{ℤ}
use snuffin.Libc.Print.{Bytes}

pub record Point : Type 0 where
  pub x : ℤ
  pub y : ℤ

pub record Board : Type 0 where
  pub board : List Bytes
  pub rows : ℤ
  pub columns : ℤ

pub record Player : Type 0 where
  pub name : Bytes
  pub num : ℤ
  pub score : ℤ
  pub ready : ℤ

pub record StreamData : Type 0 where
  pub bytes : Option Bytes
  pub size : ℤ
