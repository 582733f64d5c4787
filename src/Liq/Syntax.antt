-- ===== src/Liq/Syntax.antt =====
-- The statements of liq/parser.py, its frozen dataclasses.
use lidb.Base.{ℕ, Bool, List, Option}
use lidb.Str.{Text}

pub record IdentRef : Type 0 where
  pub raw : Text
  pub parts : List Text

-- The value of a `Const`: str | int.
pub data Literal : Type 0 where
  str_value : Text → Literal
  int_value : ℕ → Literal

-- ParamRef | Const
pub data Rhs : Type 0 where
  param_ref : Text → Rhs
  const : Literal → Rhs

pub record Predicate : Type 0 where
  pub column : Text
  pub op : Text
  pub rhs : Rhs

pub record ReadStmt : Type 0 where
  pub table : IdentRef
  pub columns : Option (List Text)
  pub where_clause : Option Predicate
  pub order_column : Option Text
  pub order_desc : Bool
  pub limit : Option ℕ

abbrev pub Bindings : Type 0
Bindings = List (Text × Rhs)

pub record InsertStmt : Type 0 where
  pub table : IdentRef
  pub bindings : Bindings

pub record UpdateStmt : Type 0 where
  pub table : IdentRef
  pub bindings : Bindings
  pub where_clause : Option Predicate
  pub returning : Option (List Text)

pub record DeleteStmt : Type 0 where
  pub table : IdentRef
  pub where_clause : Option Predicate

pub data Stmt : Type 0 where
  read : ReadStmt → Stmt
  insert : InsertStmt → Stmt
  update : UpdateStmt → Stmt
  delete : DeleteStmt → Stmt
