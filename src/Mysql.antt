-- ===== src/Mysql.antt =====
-- The class XMySQL (Test00/xmysql.h and Test00/xmysql.cpp), over an abstract client library.
pub mod Client
pub mod Session
pub mod Timer
pub mod Settings
pub mod Pairs
pub mod Connection
pub mod Life
pub mod Query
pub mod Methods
pub mod Server
pub mod Drain
pub mod Link
pub mod Source
pub mod Reading
pub mod Opening
pub mod Fields
pub mod Names
pub mod Dump
