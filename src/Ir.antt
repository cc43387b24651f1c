-- ===== src/Ir.antt =====
-- crates/specforge-core/src/ir.rs: the language-neutral document that a spec is resolved to.
-- `IrType` is `Type`; its lists are a type of their own. `u32` is ℕ.
use specforge_openapi_sdk_co.Prelude.{ℕ, String, Bool, Option, List, [], ◌∷◌, lookup, nat_eq}

pub data Scalar : Type 0 where
  string date_time uuid integer integer64 float boolean base64 binary : Scalar

-- The derived `==` of a fieldless enum compares discriminants.
abbrev pub scalar_index : Scalar → ℕ
scalar_index string = 0
scalar_index date_time = 1
scalar_index uuid = 2
scalar_index integer = 3
scalar_index integer64 = 4
scalar_index float = 5
scalar_index boolean = 6
scalar_index base64 = 7
scalar_index binary = 8

abbrev pub scalar_eq : Scalar → Scalar → Bool
scalar_eq a b = nat_eq (scalar_index a) (scalar_index b)

pub record Discriminator : Type 0 where
  pub property_name : String
  pub mapping : Option (List (String × String))

pub data CompositionKind : Type 0 where
  all_of one_of any_of : CompositionKind

mutual
  pub data IrType : Type 0 where
    scalar : Scalar → IrType
    string_enum : (variants : List String) (nullable : Bool) → IrType
    array : (item : IrType) (nullable : Bool) → IrType
    map : (value : IrType) → IrType
    reference : (name : String) (nullable : Bool) (description : Option String) → IrType
    composition : CompositionKind → IrTypes → Option Discriminator → IrType
    any : IrType
    unknown : IrType

  pub data IrTypes : Type 0 where
    nil : IrTypes
    cons : IrType → IrTypes → IrTypes

abbrev pub members : IrTypes → List IrType
members nil = []
members (cons t ts) = t ∷ members ts

pub record Property : Type 0 where
  pub name : String
  pub ty : IrType
  pub required : Bool
  pub description : Option String

pub record ObjectModel : Type 0 where
  pub name : String
  pub description : Option String
  pub properties : List Property
  pub additional_properties : Option IrType
  pub shape_type : Option IrType
  pub base_type : Option IrType

pub record EnumVariant : Type 0 where
  pub value : String
  pub description : Option String

pub record EnumModel : Type 0 where
  pub name : String
  pub description : Option String
  pub variants : List EnumVariant

pub data Model : Type 0 where
  object : ObjectModel → Model
  enumeration : EnumModel → Model

unfoldable pub model_name : Model → String
model_name (object o) = o.name
model_name (enumeration e) = e.name

pub record SchemaRegistry : Type 0 where
  pub models : List (String × Model)

-- `SchemaRegistry::get`
unfoldable pub get_model : SchemaRegistry → String → Option Model
unfolding lookup
get_model r name = lookup name r.models

pub data HttpMethod : Type 0 where
  get post put patch delete head options : HttpMethod

unfoldable pub as_str : HttpMethod → String
as_str get = "get"
as_str post = "post"
as_str put = "put"
as_str patch = "patch"
as_str delete = "delete"
as_str head = "head"
as_str options = "options"

unfoldable pub upper : HttpMethod → String
upper get = "GET"
upper post = "POST"
upper put = "PUT"
upper patch = "PATCH"
upper delete = "DELETE"
upper head = "HEAD"
upper options = "OPTIONS"

pub data ParamLocation : Type 0 where
  path query header : ParamLocation

pub record Parameter : Type 0 where
  pub name : String
  pub location : ParamLocation
  pub ty : IrType
  pub required : Bool
  pub description : Option String

pub record Response : Type 0 where
  pub status : String
  pub description : Option String
  pub body : Option IrType

pub record RequestBody : Type 0 where
  pub ty : IrType
  pub required : Bool
  pub description : Option String

pub record RetryPolicy : Type 0 where
  pub max_retries : Option ℕ
  pub retryable : Bool

pub record Operation : Type 0 where
  pub operation_id : String
  pub method : HttpMethod
  pub path : String
  pub tag : Option String
  pub summary : Option String
  pub description : Option String
  pub parameters : List Parameter
  pub request_body : Option RequestBody
  pub responses : List Response
  pub retry_policy : Option RetryPolicy

pub record Webhook : Type 0 where
  pub name : String
  pub method : HttpMethod
  pub path : String
  pub summary : Option String
  pub description : Option String
  pub request_body : Option RequestBody
  pub responses : List Response

pub data SecurityScheme : Type 0 where
  http_bearer : SecurityScheme
  api_key : (header : String) → SecurityScheme

abbrev pub ir_version : String
ir_version = "1.0"

pub record Document : Type 0 where
  pub ir_version : String
  pub title : String
  pub version : String
  pub base_url : Option String
  pub security : List SecurityScheme
  pub schemas : SchemaRegistry
  pub operations : List Operation
  pub webhooks : List Webhook
