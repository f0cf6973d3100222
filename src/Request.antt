-- ===== src/Request.antt =====
-- What the sources read of net/http's Request: the cookies are those that its Cookies method gives.
use cache_predict.Common.{List}
use cache_predict.Common.Words.{Bytes}
use cache_predict.Http.{Header}

pub record Cookie : Type 0 where
  pub name : Bytes
  pub value : Bytes

pub record Request : Type 0 where
  pub method : Bytes
  pub path : Bytes
  pub raw_query : Bytes
  pub host : Bytes
  pub header : Header
  pub cookies : List Cookie
